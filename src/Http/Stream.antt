-- ===== src/Http/Stream.antt =====
-- What `CallSSE` of proxy/http_client.go reads from a stream that is written as events.
use neuralgentics_broker.Prelude.{
  ℕ, ◌≡◌, refl, sym, ap, ◌∙◌, inl, inr, Bool, true, false, Option, none, some, List, [], ◌∷◌, ◌++◌,
  Bool-cases, Option-cases, ok, err, drop, starts_with,
}
use mathlib.Core.List.{append-nil, append_assoc}
use neuralgentics_broker.Audit.{Payload}
use neuralgentics_broker.Http.{
  Web, Reply, ResultMap, Outcome, no_result, reply_error, reply_end, event_end, data_prefix,
  or_go_on, scan_lines,
}

-- an event: its data in pieces, one for each line
abbrev pub data_lines : List (List ℕ) → List (List ℕ)
data_lines [] = []
data_lines (d ∷ ds) = (data_prefix ++ d) ∷ data_lines ds

abbrev pub joined : List (List ℕ) → List ℕ
joined [] = []
joined (d ∷ ds) = d ++ joined ds

-- events, each with an empty line after it
abbrev pub written : List (List (List ℕ)) → List (List ℕ)
written [] = []
written (e ∷ es) = data_lines e ++ [] ∷ written es

-- What the stream gives by an event: its result, or else its error, or else what the next events give. An
-- event without data, or that cannot be decoded, says nothing.
abbrev pub given : Outcome Payload → Bool → Option ResultMap → Outcome Payload
given next has_error (some r) = ok r.payload
given next true none = err reply_error
given next false none = next

abbrev pub given_reply : Outcome Payload → Option Reply → Outcome Payload
given_reply next none = next
given_reply next (some reply) = given next reply.has_error reply.result

abbrev pub given_event : Web → Outcome Payload → List ℕ → Outcome Payload
given_event w next [] = next
given_event w next (c ∷ bs) = given_reply next (w.decode (c ∷ bs))

-- what the events give
abbrev pub first_end : Web → List (List (List ℕ)) → Outcome Payload
first_end w [] = err no_result
first_end w (e ∷ es) = given_event w (first_end w es) (joined e)

reply_end_lem :
    (next : Outcome Payload) (o : Option Reply) → or_go_on next (reply_end o) ≡ given_reply next o
reply_end_lem next none = refl
reply_end_lem next (some reply) = elim (Option-cases reply.result) [
  | inr (r, e) ↦ rw e refl
  | inl e ↦ elim (Bool-cases reply.has_error) [ inl h ↦ rw (e, h) refl | inr h ↦ rw (e, h) refl ]
]

event_end_lem :
    (w : Web) (next : Outcome Payload) (bs : List ℕ)
    → or_go_on next (event_end w bs) ≡ given_event w next bs
event_end_lem w next [] = refl
event_end_lem w next (c ∷ bs) = reply_end_lem next (w.decode (c ∷ bs))

scan_lines-data :
    (w : Web) (acc : List ℕ) (ds : List (List ℕ)) (ls : List (List ℕ))
    → scan_lines w false acc (data_lines ds ++ ls) ≡ scan_lines w false (acc ++ joined ds) ls
unfolding scan_lines starts_with drop
scan_lines-data w acc [] ls = ap (λ x. scan_lines w false x ls) (sym (append-nil acc))
scan_lines-data w acc (d ∷ ds) ls =
    scan_lines-data w (acc ++ d) ds ls
    ∙ ap (λ x. scan_lines w false x ls) (append_assoc acc d (joined ds))

-- A stream that is written as events, each in any number of lines of data and with an empty line after
-- it, gives what the first event says that can be decoded and has a result or else an error; if none
-- has, that there is no result.
pub scan_lines-written :
    (w : Web) (es : List (List (List ℕ))) → scan_lines w false [] (written es) ≡ first_end w es
unfolding scan_lines
scan_lines-written w [] = refl
scan_lines-written w (e ∷ es) =
    scan_lines-data w [] e ([] ∷ written es)
    ∙ ap (λ o. or_go_on o (event_end w (joined e))) (scan_lines-written w es)
    ∙ event_end_lem w (first_end w es) (joined e)
