-- ===== src/Broker/Activation/Local.antt =====
-- What a client's handshake leaves alone.
use neuralgentics_broker.Prelude.{String}
use neuralgentics_broker.Host.{Host}
use neuralgentics_broker.Clients.{Client, stdio_client, http_client, http_tools}
use neuralgentics_broker.Broker.{Broker, ask}
use neuralgentics_broker.Broker.Keeps.{
  Keeps, IsLocal, Keeps-bind, Keeps-ask, Keeps-pure, keeps_rules,
}
use neuralgentics_broker.Broker.Lifecycle.{expect}
use neuralgentics_broker.Broker.Lifecycle.Registered.{expect-Keeps}
use neuralgentics_broker.Broker.Activation.{client_tools, failed_attempt}

module _ {On : String → Type 0} {P : Broker → Type 0} (local : IsLocal On P) where
  pub client_tools-Keeps : (host : Host) (c : Client) → Keeps P (client_tools host c)
  client_tools-Keeps host (stdio_client c) = search keeps_rules
  client_tools-Keeps host (http_client url auth) =
      Keeps-bind (ask (λ n. host.http_initialize n url)) _ (Keeps-ask local _) (λ hello.
        Keeps-bind (expect failed_attempt hello) _ (expect-Keeps local failed_attempt hello) (λ _.
          Keeps-bind (ask (λ n. host.http_list_tools n url)) _ (Keeps-ask local _) (λ tools.
            Keeps-bind (expect failed_attempt tools) _ (expect-Keeps local failed_attempt tools)
              (λ listed. Keeps-pure (http_tools listed)))))
