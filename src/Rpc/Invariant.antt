-- ===== src/Rpc/Invariant.antt =====
-- What always holds of the requests of proxy/proxy.go and their channels, whoever moves.
use neuralgentics_broker.Prelude.{
  ℕ, ◌+◌, ◌≤◌, ◌<◌, ◌≡◌, ◌≢◌, inl, inr, Bool, true, false, ◌||◌, Option, none, some, List, [], ◌∷◌,
  arith, eqb, if◌then◌else◌, Bool-cases, Result, put_at, ok, err,
}
use neuralgentics_broker.Rpc.{
  Caller, idle, registered, waiting, leaving, returned, Channel, JsonrpcResponse, CallError,
  elem_id, remove_id,
}

-- the id of a call that has not returned
abbrev pub id_of : Caller → Option ℕ
id_of idle = none
id_of (registered id) = some id
id_of (waiting id) = some id
id_of (leaving id r) = some id
id_of (returned r) = none

-- whether a response can still reach the channel, or its end has
abbrev pub is_reachable : List ℕ → (ℕ → Channel) → ℕ → Bool
is_reachable pending channel id = elem_id id pending || (channel id).is_closed

-- the end of a call: a response has the call's id
abbrev pub IsOwn : ℕ → Result CallError JsonrpcResponse → Type 0
IsOwn id (ok r) = r.id ≡ id
IsOwn id (err e) = Unit

abbrev pub IsPlaced : ℕ → List ℕ → (ℕ → Channel) → Caller → Type 0
IsPlaced next pending channel idle = Unit
IsPlaced next pending channel (registered id) =
    (id < next) × (is_reachable pending channel id ≡ true)
IsPlaced next pending channel (waiting id) = (id < next) × (is_reachable pending channel id ≡ true)
IsPlaced next pending channel (leaving id r) = (id < next) × IsOwn id r
IsPlaced next pending channel (returned r) = Unit

-- each id once
abbrev pub OnlyOnce : List ℕ → Type 0
OnlyOnce [] = Unit
OnlyOnce (n ∷ ns) = (elem_id n ns ≡ false) × OnlyOnce ns

-- Pending ids are below the next id, each once, and their channels are open; each call is placed; no two
-- calls have one id; and a channel holds only a response with its id.
pub record IsRouted (next : ℕ) (pending : List ℕ) (channel : ℕ → Channel) (caller : ℕ → Caller)
    : Type 0 where
  pub known : (id : ℕ) → elem_id id pending ≡ true → id < next
  pub opened : (id : ℕ) → elem_id id pending ≡ true → (channel id).is_closed ≡ false
  pub once : OnlyOnce pending
  pub placed : (k : ℕ) → IsPlaced next pending channel (caller k)
  pub distinct : (j k id : ℕ) → id_of (caller j) ≡ some id → id_of (caller k) ≡ some id → j ≡ k
  pub own : (id : ℕ) (r : JsonrpcResponse) → (channel id).buffer ≡ some r → r.id ≡ id

pub elem_id-remove_id :
    (n m : ℕ) (ns : List ℕ) → elem_id n (remove_id m ns) ≡ (if eqb m n then false else elem_id n ns)
elem_id-remove_id n m [] = ground arith
elem_id-remove_id n m (k ∷ ns) = ground (arith, elem_id-remove_id n m ns)

remove_id-OnlyOnce : (m : ℕ) (ns : List ℕ) → OnlyOnce ns → OnlyOnce (remove_id m ns)
remove_id-OnlyOnce m [] h = tt
remove_id-OnlyOnce m (k ∷ ns) h =
    ground (arith, elem_id-remove_id k m ns, remove_id-OnlyOnce m ns h.1)

IsPlaced-forget :
    (next : ℕ) (pending : List ℕ) (channel : ℕ → Channel) (id : ℕ) (c : Caller)
    → (id_of c ≢ some id)
    → IsPlaced next pending channel c
    → IsPlaced next (remove_id id pending) channel c
IsPlaced-forget next pending channel id idle n p = tt
IsPlaced-forget next pending channel id (registered m) n p =
    let other : eqb id m ≡ false = ground (arith, n) in
    (p.0, rw (elem_id-remove_id m id pending, other) p.1)
IsPlaced-forget next pending channel id (waiting m) n p =
    let other : eqb id m ≡ false = ground (arith, n) in
    (p.0, rw (elem_id-remove_id m id pending, other) p.1)
IsPlaced-forget next pending channel id (leaving m r) n p = p
IsPlaced-forget next pending channel id (returned r) n p = tt

-- a call stays placed while no channel is lost
IsPlaced-kept :
    (next next' : ℕ) (pending pending' : List ℕ) (channel channel' : ℕ → Channel) (c : Caller)
    → next ≤ next'
    → ((id : ℕ)
        → id < next
        → is_reachable pending channel id ≡ true
        → is_reachable pending' channel' id ≡ true)
    → IsPlaced next pending channel c
    → IsPlaced next' pending' channel' c
IsPlaced-kept n n' p p' h h' idle l k q = tt
IsPlaced-kept n n' p p' h h' (registered id) l k q = (omega (arith, l, q.0), k id q.0 q.1)
IsPlaced-kept n n' p p' h h' (waiting id) l k q = (omega (arith, l, q.0), k id q.0 q.1)
IsPlaced-kept n n' p p' h h' (leaving id r) l k q = (omega (arith, l, q.0), q.1)
IsPlaced-kept n n' p p' h h' (returned r) l k q = tt

below :
    (c : Caller) (next : ℕ) (pending : List ℕ) (channel : ℕ → Channel) (id : ℕ)
    → IsPlaced next pending channel c
    → id_of c ≡ some id
    → id < next
below idle n p ch id h e = ground arith
below (registered m) n p ch id h e = ground arith
below (waiting m) n p ch id h e = ground arith
below (leaving m r) n p ch id h e = ground arith
below (returned r) n p ch id h e = ground arith

module _ {next : ℕ} {pending : List ℕ} {channel : ℕ → Channel} {caller : ℕ → Caller} where
  -- one goroutine goes on
  pub put_at-IsRouted :
      (k : ℕ) (c : Caller)
      → IsPlaced next pending channel c
      → ((id : ℕ) → id_of c ≡ some id → (j : ℕ) → id_of (caller j) ≡ some id → k ≡ j)
      → IsRouted next pending channel caller
      → IsRouted next pending channel (put_at caller k c)
  put_at-IsRouted k c p u h = record {
    known = h.known;
    opened = h.opened;
    once = h.once;
    placed =
        λ j. elim (Bool-cases (eqb k j)) [ inl here ↦ rw here p | inr away ↦ rw away (h.placed j) ];
    distinct = λ i j id. elim (Bool-cases (eqb k i)) [
      | inl here ↦ elim (Bool-cases (eqb k j)) [
        | inl there ↦ λ a b. ground arith
        | inr away ↦ rw (here, away) (λ a b. let e = u id a j b in ground arith)
      ]
      | inr away ↦ elim (Bool-cases (eqb k j)) [
        | inl there ↦ rw (away, there) (λ a b. let e = u id b i a in ground arith)
        | inr away' ↦ rw (away, away') (h.distinct i j id)
      ]
    ];
    own = h.own;
  }

  -- an id that no call has is forgotten
  pub remove_id-IsRouted :
      (id : ℕ)
      → ((j : ℕ) → id_of (caller j) ≢ some id)
      → IsRouted next pending channel caller
      → IsRouted next (remove_id id pending) channel caller
  remove_id-IsRouted id n h = record {
    known = λ m e. h.known m (ground (arith, elem_id-remove_id m id pending));
    opened = λ m e. h.opened m (ground (arith, elem_id-remove_id m id pending));
    once = remove_id-OnlyOnce id pending h.once;
    placed = λ j. IsPlaced-forget next pending channel id (caller j) (n j) (h.placed j);
    distinct = h.distinct;
    own = h.own;
  }

  -- a value comes into a channel or leaves it
  pub put_buffer-IsRouted :
      (id : ℕ) (o : Option JsonrpcResponse)
      → ((r : JsonrpcResponse) → o ≡ some r → r.id ≡ id)
      → IsRouted next pending channel caller
      → IsRouted next pending (put_at channel id (record (channel id) { buffer = o })) caller
  put_buffer-IsRouted id o k h = record {
    known = h.known;
    opened = λ m e. ground (arith, h.opened m e);
    once = h.once;
    placed = λ j.
        IsPlaced-kept next next pending pending channel
          (put_at channel id (record (channel id) { buffer = o })) (caller j) (omega arith)
          (λ m l q. ground (arith, q)) (h.placed j);
    distinct = h.distinct;
    own = λ m r. elim (Bool-cases (eqb id m)) [
      | inl here ↦ rw here (λ e. let same = k r e in ground arith)
      | inr away ↦ rw away (h.own m r)
    ];
  }

  -- a new request
  pub register-IsRouted :
      IsRouted next pending channel caller
      → IsRouted
          (next + 1)
          (next ∷ pending)
          (put_at channel next (record { buffer = none; is_closed = false }))
          caller
  register-IsRouted h = record {
    known = λ m e. ground (arith, h.known m);
    opened = λ m e. ground (arith, h.opened m);
    once = (ground (arith, h.known next), h.once);
    placed = λ j.
        IsPlaced-kept next (next + 1) pending (next ∷ pending) channel
          (put_at channel next (record { buffer = none; is_closed = false })) (caller j)
          (omega arith) (λ m l q. ground (arith, q, l)) (h.placed j);
    distinct = h.distinct;
    own = λ m r. elim (Bool-cases (eqb next m)) [
      | inl here ↦ rw here (λ e. ground arith)
      | inr away ↦ rw away (h.own m r)
    ];
  }

  -- one round of `Stop`
  pub close-IsRouted :
      (id : ℕ)
      → IsRouted next pending channel caller
      → IsRouted next
          (remove_id id pending)
          (put_at channel id (record (channel id) { is_closed = true }))
          caller
  close-IsRouted id h = record {
    known = λ m e. h.known m (ground (arith, elem_id-remove_id m id pending));
    opened = λ m e. ground (arith, elem_id-remove_id m id pending, h.opened m);
    once = remove_id-OnlyOnce id pending h.once;
    placed = λ j.
        IsPlaced-kept next next pending (remove_id id pending) channel
          (put_at channel id (record (channel id) { is_closed = true })) (caller j) (omega arith)
          (λ m l q. ground (arith, q, elem_id-remove_id m id pending)) (h.placed j);
    distinct = h.distinct;
    own = λ m r. elim (Bool-cases (eqb id m)) [
      | inl here ↦ rw here (λ e. let same = h.own id r e in ground arith)
      | inr away ↦ rw away (h.own m r)
    ];
  }

  -- the next id is no call's
  pub next-fresh : (k : ℕ) → IsRouted next pending channel caller → id_of (caller k) ≢ some next
  next-fresh k h e =
      let l = below (caller k) next pending channel next (h.placed k) e in omega (arith, l)
