-- ===== src/Catalog/Curated/Available.antt =====
-- Which transports `CheckTransportAvailability` of catalog/curated.go accepts.
use neuralgentics_broker.Prelude.{
  String, ◌≡◌, refl, sym, ap, ◌∙◌, inl, inr, Bool, true, false, not, ◌&&◌, ◌||◌, List, [], ◌∷◌,
  ◌++◌, arith, ◌==◌, eq_iff, if◌then◌else◌, Bool-cases, elem, elem-append,
}
use mathlib.Core.List.{append-nil, append_assoc}
use mathlib.Core.Path.{subst}
use neuralgentics_broker.Types.{to_server_config, detect_container_runtime}
use neuralgentics_broker.Catalog.Curated.{
  CuratedTransport, transport_binary, binary_available, Checked, check_transport, check_loop,
  check_transport_availability, transport_config,
}

-- whether a type needs no binary of its own, or its binary is on PATH
abbrev pub usable : (String → Bool) → String → Bool
usable look_path type =
    if type == "npx" || type == "uvx" || type == "docker" then look_path type else true

-- each text once
abbrev pub OnlyOnce : List String → Type 0
OnlyOnce [] = Unit
OnlyOnce (x ∷ xs) = (elem x xs ≡ false) × OnlyOnce xs

OnlyOnce-snoc :
    (x : String) (xs : List String) → elem x xs ≡ false → OnlyOnce xs → OnlyOnce (xs ++ x ∷ [])
OnlyOnce-snoc x [] n h = (refl, tt)
OnlyOnce-snoc x (y ∷ ys) n h =
    ground (arith, elem-append y ys (x ∷ []), OnlyOnce-snoc x ys, eq_iff x y, eq_iff y x)

-- some transport of the list has that type
abbrev pub has_type : String → List CuratedTransport → Bool
has_type type [] = false
has_type type (t ∷ ts) = t.type == type || has_type type ts

abbrev pub usable_ones : (String → Bool) → List CuratedTransport → List CuratedTransport
usable_ones look_path [] = []
usable_ones look_path (t ∷ ts) =
    let rest = usable_ones look_path ts in if usable look_path t.type then t ∷ rest else rest

has_type-usable_ones :
    (look_path : String → Bool) (ts : List CuratedTransport)
    → look_path "docker" ≡ false
    → has_type "docker" (usable_ones look_path ts) ≡ false
has_type-usable_ones look_path [] d = refl
has_type-usable_ones look_path (t ∷ ts) d =
    let ih = has_type-usable_ones look_path ts d in
    elim (Bool-cases (t.type == "docker")) [
      | inl same ↦ rw ((eq_iff t.type "docker").0 same) rw d ih
      | inr other ↦ ground (arith, other, ih)
    ]

transport_binary_lem :
    (look_path : String → Bool) (type : String)
    → (transport_binary type == "" || binary_available look_path (transport_binary type))
      ≡ usable look_path type
unfolding transport_binary binary_available
transport_binary_lem look_path type = elim (Bool-cases (type == "npx")) [
  | inl npx ↦ rw ((eq_iff type "npx").0 npx) refl
  | inr no_npx ↦ elim (Bool-cases (type == "uvx")) [
    | inl uvx ↦ rw ((eq_iff type "uvx").0 uvx) refl
    | inr no_uvx ↦ elim (Bool-cases (type == "docker")) [
      | inl docker ↦ rw ((eq_iff type "docker").0 docker) refl
      | inr no_docker ↦ rw (no_npx, no_uvx, no_docker) refl
    ]
  ]
]

check_transport_lem :
    (look_path : String → Bool) (acc : Checked) (t : CuratedTransport)
    → check_transport look_path acc t ≡ (
        if usable look_path t.type
        then (acc.0 ++ t ∷ [], acc.1)
        else (acc.0, if elem t.type acc.1 then acc.1 else acc.1 ++ t.type ∷ []))
unfolding check_transport
check_transport_lem look_path acc t =
    rw (sym (transport_binary_lem look_path t.type)) (ground arith)

-- what the loop finds in a list, in one statement
abbrev Found : (String → Bool) → List CuratedTransport → String → Checked → Checked → Type 0
Found look_path ts type acc done =
    (done.0 ≡ acc.0 ++ usable_ones look_path ts)
    × (elem type done.1 ≡ (elem type acc.1 || (has_type type ts && not (usable look_path type))))
    × OnlyOnce done.1

check_loop_lem :
    (look_path : String → Bool) (acc : Checked) (ts : List CuratedTransport) (type : String)
    → OnlyOnce acc.1
    → Found look_path ts type acc (check_loop look_path acc ts)
unfolding check_loop
check_loop_lem look_path acc [] type h = (sym (append-nil acc.0), ground arith, h)
check_loop_lem look_path acc (t ∷ ts) type h =
    subst (λ next. Found look_path (t ∷ ts) type acc (check_loop look_path next ts))
      (sym (check_transport_lem look_path acc t))
      (elim (Bool-cases (usable look_path t.type)) [
        | inl can ↦
            let ih = check_loop_lem look_path (acc.0 ++ t ∷ [], acc.1) ts type h in
            rw can (
              ih.0 ∙ append_assoc acc.0 (t ∷ []) (usable_ones look_path ts),
              ih.1 ∙ ground (arith, can, eq_iff t.type type),
              ih.2,
            )
        | inr cannot ↦ elim (Bool-cases (elem t.type acc.1)) [
          | inl listed ↦
              let ih = check_loop_lem look_path acc ts type h in
              rw (cannot, listed)
                (ih.0, ih.1 ∙ ground (arith, cannot, listed, eq_iff t.type type), ih.2)
          | inr fresh ↦
              let ih =
                check_loop_lem look_path (acc.0, acc.1 ++ t.type ∷ []) ts type
                  (OnlyOnce-snoc t.type acc.1 fresh h) in
              rw (cannot, fresh)
                (
                  ih.0,
                  ih.1
                      ∙ ground
                          (arith, cannot, elem-append type acc.1 (t.type ∷ []), eq_iff t.type type),
                  ih.2,
                )
        ]
      ])

-- The first list has exactly the transports that need no binary of their own or have it on PATH, in their
-- order; the second has exactly the types of the others, each once.
check_transport_availability_lem :
    (look_path : String → Bool) (ts : List CuratedTransport) (type : String)
    → let done = check_transport_availability look_path ts in
      (done.0 ≡ usable_ones look_path ts)
      × (elem type done.1 ≡ (has_type type ts && not (usable look_path type)))
      × OnlyOnce done.1
unfolding check_transport_availability
check_transport_availability_lem look_path ts type = check_loop_lem look_path ([], []) ts type tt

-- If podman is on PATH and docker is not, docker is reported once among the types that are not available
-- for every list with a docker transport, and no docker transport as available, while the conversion of each
-- docker transport gives it a stdio server that podman runs.
pub check_transport_availability-podman :
    (look_path : String → Bool) (ts : List CuratedTransport) (t : CuratedTransport)
    (name description : String) (capabilities : List String)
    → look_path "docker" ≡ false
    → look_path "podman" ≡ true
    → t.type ≡ "docker"
    → has_type "docker" ts ≡ true
    → let (available, unavailable) = check_transport_availability look_path ts in
      let sc = to_server_config look_path (transport_config t) name description capabilities in
      (elem "docker" unavailable ≡ true)
      × OnlyOnce unavailable
      × (has_type "docker" available ≡ false)
      × (sc.command ≡ "podman")
      × (sc.type ≡ "stdio")
unfolding to_server_config detect_container_runtime
check_transport_availability-podman look_path ts t name description capabilities d p e h =
    let done = check_transport_availability_lem look_path ts "docker" in
    (
      done.1 ∙ rw (h, d) refl,
      done.2,
      ap (has_type "docker") done.0 ∙ has_type-usable_ones look_path ts d,
      rw (e, d, p) refl,
      rw e refl,
    )
