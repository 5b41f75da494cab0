-- ===== src/Catalog/Filtering.antt =====
-- Which servers the catalog of catalog.go shows to a role, and the tools of one of them.
use neuralgentics_broker.Prelude.{
  ℕ, ◌+◌, String, ◌≡◌, refl, sym, ap, ◌∙◌, inl, inr, Bool, true, false, ◌&&◌, ◌||◌, some, List, [],
  ◌∷◌, ◌++◌, arith, ◌==◌, eq_iff, eq_refl, if◌then◌else◌, Bool-cases, Option-cases, is_some, length,
  length-append, elem, Dict, has_key, IsMap,
}
use mathlib.Core.List.{append-nil, append_assoc}
use neuralgentics_broker.Access.{can_access, AccessControl}
use neuralgentics_broker.Types.{ToolSummary, ServerStatus}
use neuralgentics_broker.Registry.Laws.{Named, IsValid}
use neuralgentics_broker.Registry.{
  list, statuses, all_tools, get_all_tools, ServerEntry, Registry, find,
}
use neuralgentics_broker.Catalog.{
  build_step, build, Progress, build_loop, build_summary, ServerSummary, visible,
}

abbrev pub names : List ServerSummary → List String
names [] = []
names (s ∷ ss) = s.name ∷ names ss

abbrev pub sum_counts : List ServerSummary → ℕ
sum_counts [] = 0
sum_counts (s ∷ ss) = s.tools_count + sum_counts ss

names-append : (xs ys : List ServerSummary) → names (xs ++ ys) ≡ names xs ++ names ys
names-append [] ys = refl
names-append (x ∷ xs) ys = ap (◌∷◌ x.name) (names-append xs ys)

sum_counts-append :
    (xs ys : List ServerSummary) → sum_counts (xs ++ ys) ≡ sum_counts xs + sum_counts ys
sum_counts-append [] ys = omega arith
sum_counts-append (x ∷ xs) ys = omega (arith, sum_counts-append xs ys)

-- every entry of a part of the map is what the registry finds under its name
abbrev pub Inside : Registry → Dict ServerEntry → Type 0
Inside r [] = Unit
Inside r ((k, e) ∷ m) = (find k r ≡ some e) × Inside r m

Inside-cons :
    (k : String) (e : ServerEntry) (m m0 : Dict ServerEntry)
    → has_key k m ≡ false
    → Inside (record { servers = m0 }) m
    → Inside (record { servers = (k, e) ∷ m0 }) m
Inside-cons k e [] m0 n h = tt
Inside-cons k e ((j, w) ∷ m) m0 n h = ground (arith, eq_iff k j, eq_iff j k, Inside-cons k e m m0)

pub Inside-self : (m : Dict ServerEntry) → IsMap m → Inside (record { servers = m }) m
Inside-self [] h = tt
Inside-self ((k, e) ∷ m) h = (rw (eq_refl k), Inside-cons k e m m h.0 (Inside-self m h.1))

-- the names that the loop adds
names_from : AccessControl → String → Dict ServerEntry → List String
names_from ac role [] = []
names_from ac role ((k, e) ∷ m) =
    let rest = names_from ac role m in if visible ac role k then k ∷ rest else rest

elem-names_from :
    (ac : AccessControl) (role s : String) (m : Dict ServerEntry)
    → elem s (names_from ac role m) ≡ (has_key s m && visible ac role s)
unfolding names_from
elem-names_from ac role s [] = refl
elem-names_from ac role s ((k, e) ∷ m) = ground (arith, eq_iff k s, elem-names_from ac role s m)

names-build_step :
    (ac : AccessControl) (role : String) (r : Registry) (acc : Progress) (k : String)
    (e : ServerEntry) (running : Bool) (tools : List ToolSummary)
    → find k r ≡ some e
    → e.config.name ≡ k
    → names (build_step ac role r acc (record { name = k; running = running; tools = tools })).0
      ≡ names acc.0 ++ (if visible ac role k then k ∷ [] else [])
unfolding build_summary
names-build_step ac role r (ss, n) k e running tools f p = elim (Bool-cases (visible ac role k)) [
  | inl v ↦ rw (v, f) (names-append ss (build_summary e ∷ []) ∙ rw p)
  | inr v ↦ rw v (sym (append-nil (names ss)))
]

append-choice :
    (xs ys : List String) (b : Bool) (k : String)
    → (xs ++ (if b then k ∷ [] else [])) ++ ys ≡ xs ++ (if b then k ∷ ys else ys)
append-choice xs ys true k = append_assoc xs (k ∷ []) ys
append-choice xs ys false k = append_assoc xs [] ys

names-build_loop :
    (ac : AccessControl) (role : String) (r : Registry) (acc : Progress) (m : Dict ServerEntry)
    → Inside r m
    → Named m
    → names (build_loop ac role r acc (statuses m)).0 ≡ names acc.0 ++ names_from ac role m
unfolding build_loop statuses names_from
names-build_loop ac role r acc [] h p = sym (append-nil (names acc.0))
names-build_loop ac role r acc ((k, e) ∷ m) h p =
    names-build_loop ac role r
      (build_step ac role r acc (record { name = k; running = is_some e.process; tools = e.tools }))
      m h.1 p.1
    ∙ ap (λ xs. xs ++ names_from ac role m)
        (names-build_step ac role r acc k e (is_some e.process) e.tools h.0 p.0)
    ∙ append-choice (names acc.0) (names_from ac role m) (visible ac role k) k

-- the count kept beside the summaries is the sum of their counts
total-build_step :
    (ac : AccessControl) (role : String) (r : Registry) (acc : Progress) (s : ServerStatus)
    → acc.1 ≡ sum_counts acc.0
    → (build_step ac role r acc s).1 ≡ sum_counts (build_step ac role r acc s).0
total-build_step ac role r (ss, n) s h = elim (Bool-cases (visible ac role s.name)) [
  | inl v ↦ elim (Option-cases (find s.name r)) [
    | inl f ↦ rw (v, f) h
    | inr (e, f) ↦ rw (v, f) (omega (arith, sum_counts-append ss (build_summary e ∷ [])))
  ]
  | inr v ↦ rw v h
]

total-build_loop :
    (ac : AccessControl) (role : String) (r : Registry) (acc : Progress) (ss : List ServerStatus)
    → acc.1 ≡ sum_counts acc.0
    → (build_loop ac role r acc ss).1 ≡ sum_counts (build_loop ac role r acc ss).0
unfolding build_loop
total-build_loop ac role r acc [] h = h
total-build_loop ac role r acc (s ∷ ss) h =
    total-build_loop ac role r (build_step ac role r acc s) ss (total-build_step ac role r acc s h)

all-build_loop :
    (ac : AccessControl) (r : Registry) (acc : Progress) (m : Dict ServerEntry)
    → Inside r m
    → (build_loop ac "" r acc (statuses m)).1 ≡ acc.1 + length (all_tools m)
unfolding build_loop statuses all_tools build_summary
all-build_loop ac r (ss, n) [] h = omega arith
all-build_loop ac r (ss, n) ((k, e) ∷ m) h =
    all-build_loop ac r
      (build_step ac "" r (ss, n)
        (record { name = k; running = is_some e.process; tools = e.tools }))
      m h.1
    ∙ rw h.0 (omega (arith, length-append e.tools (all_tools m)))

-- On a valid registry, whatever the order of its map: the catalog built for a role names exactly
-- the registered servers that the role may access, all of them if no role is given; its total is
-- the sum of the servers' tool counts; and with no role given, it is the number of all tools.
pub build_lem :
    (ac : AccessControl) (r : Registry) (role : String)
    → IsValid r
    → ((s : String)
        → elem s (names (build ac r role).servers)
          ≡ (has_key s r.servers && (role == "" || can_access ac role s)))
      × ((build ac r role).total_tools ≡ sum_counts (build ac r role).servers)
      × ((build ac r "").total_tools ≡ length (get_all_tools r))
unfolding build list get_all_tools
build_lem ac r role v =
    let inside = Inside-self r.servers v.unique in
    (
      λ s.
          ap (elem s) (names-build_loop ac role r ([], 0) r.servers inside v.named)
          ∙ elem-names_from ac role s r.servers,
      total-build_loop ac role r ([], 0) (statuses r.servers) refl,
      omega (arith, all-build_loop ac r ([], 0) r.servers inside),
    )
