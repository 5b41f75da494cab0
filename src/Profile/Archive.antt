-- ===== src/Profile/Archive.antt =====
-- What `Import` of profile/profile.go makes of an archive that `Export` wrote.
use neuralgentics_broker.Prelude.{
  ℕ, ◌+◌, String, ◌≡◌, refl, ap, ◌∙◌, inl, inr, true, none, some, List, [], ◌∷◌, ◌==◌,
  if◌then◌else◌, Bool-cases, ok, err, eq_bytes,
}
use neuralgentics_broker.Profile.{
  Profile, FileEntry, Codec, Output, no_passphrase, wrong_signature, counted, files_of, signed,
  export, write_files, file_map, import, import_map, import_files, signature, sort_files, bodies,
  Outcome,
}

-- the bytes that the signature of a profile is made of
abbrev pub content : Codec → Profile → List ℕ → List ℕ
content c p json = bodies (sort_files (files_of c p json))

-- What an import under the passphrase `q` gives for a profile exported under `passphrase`.
abbrev pub expected : Codec → Profile → List ℕ → String → String → Outcome Profile
expected c p json passphrase q =
    if passphrase == ""
    then ok (counted p)
    else if q == ""
    then err no_passphrase
    else if eq_bytes (signature c q (content c p json)) (signature c passphrase (content c p json))
    then ok (counted p)
    else err wrong_signature

import_map-signed :
    (c : Codec) (p : Profile) (passphrase q : String) (json : List ℕ)
    → c.parse_manifest (c.manifest_json (counted p).manifest) ≡ some (counted p).manifest
    → import_map c q (file_map [] (signed c passphrase (files_of c p json)))
      ≡ expected c p json passphrase q
unfolding import_map file_map sort_files
import_map-signed c p passphrase q json m = elim (Bool-cases (passphrase == "")) [
  | inl unsigned ↦ rw unsigned (rw m refl)
  | inr given ↦ elim (Bool-cases (q == "")) [
    | inl e ↦ rw (given, e) refl
    | inr n ↦
        let same =
          eq_bytes (signature c q (content c p json)) (signature c passphrase (content c p json)) in
        elim (Bool-cases same) [
          | inl fits ↦ rw (given, n, fits) (rw m refl)
          | inr differs ↦ rw (given, n, differs) refl
        ]
  ]
]

write_files-none :
    (o : Output) (n : ℕ) (fs : List FileEntry)
    → ((i : ℕ) → (o.header i ≡ true) × (o.body i ≡ true))
    → write_files o n fs ≡ none
unfolding write_files
write_files-none o n [] h = refl
write_files-none o n (f ∷ fs) h = rw ((h n).0, (h n).1) (write_files-none o (n + 1) fs h)

-- If the profile can be encoded, every write succeeds, and this archive and this manifest are read back
-- as they were written, then `Export` gives an archive, and `Import` gives back the profile, with its
-- count of files set, exactly if there was no passphrase or a passphrase is given that makes the same
-- signature; without one, or with another signature, it fails.
pub import-export :
    (c : Codec) (o : Output) (p : Profile) (passphrase q : String) (json : List ℕ)
    → c.profile_json p ≡ some json
    → ((i : ℕ) → (o.header i ≡ true) × (o.body i ≡ true))
    → o.close_tar ≡ true
    → o.close_gzip ≡ true
    → c.unpack (c.pack (signed c passphrase (files_of c p json)))
      ≡ some (signed c passphrase (files_of c p json))
    → c.parse_manifest (c.manifest_json (counted p).manifest) ≡ some (counted p).manifest
    → (archive : List ℕ) × (export c o p passphrase ≡ ok archive)
      × (import c archive q ≡ expected c p json passphrase q)
unfolding export import
import-export c o p passphrase q json j w t g u m =
    let fs = signed c passphrase (files_of c p json) in
    (
      c.pack fs,
      rw (j, write_files-none o 0 fs w, t, g) refl,
      ap (import_files c q) u ∙ import_map-signed c p passphrase q json m,
    )
