-- ===== src/Profile.antt =====
-- profile/profile.go: a profile as an archive of files, signed with a passphrase. JSON, the archive
-- format, the hash and the keyed hash are arguments, and so is whether each write succeeds.
pub mod Archive
use neuralgentics_broker.Prelude.{
  ℕ, zero, suc, ◌+◌, ◌-◌, ◌*◌, ◌/◌, ◌%◌, ◌^◌, ◌≤◌, ◌<◌, String, ◌≡◌, refl, sym, ap, ◌∙◌, ◌≢◌, ◌↔◌,
  ◌⊎◌, inl, inr, Bool, true, false, not, ◌&&◌, ◌||◌, Option, none, some, List, [], ◌∷◌, ◌++◌, map,
  reverse, arith, ◌==◌, eq_iff, eq_refl, ltb, leb, eqb, if◌then◌else◌, Bool-cases, Option-cases,
  is_some, Result, is_ok, ok, err, length, is_empty, keep_if, take, All, length-append,
  length-keep_if, All-keep_if, elem, elem-append, elem-keep_if, Dict, get, put, delete, keys,
  has_key, IsMap, get-put, get-delete, has_key-get, has_key-put, has_key-delete, put-IsMap,
  delete-IsMap, dict_laws, text_le, text_le_total, sort_strings, IsSorted, sort_strings-IsSorted,
  elem-sort_strings, encode, bytes, later, last_index, last_index-lt, eq_bytes, drop, starts_with,
  contains, has_suffix, one_more, index,
}

pub record Manifest : Type 0 where
  pub version : String
  pub exported_at : String
  pub exported_by : String
  pub broker_version : String
  pub file_count : ℕ

-- a `json.RawMessage` is its bytes; nil is empty
pub record Profile : Type 0 where
  pub manifest : Manifest
  pub provider : List ℕ
  pub catalog : List ℕ
  pub permissions : List ℕ
  pub opencode : List ℕ
  pub pref : List ℕ

pub record FileEntry : Type 0 where
  pub name : String
  pub body : List ℕ

-- `profile_json` is `none` where `mustMarshal` panics. `pack` is the archive of some files, `unpack`
-- reads one, and is `none` if it is not well-formed.
pub record Codec : Type 0 where
  pub profile_json : Profile → Option (List ℕ)
  pub manifest_json : Manifest → List ℕ
  pub parse_manifest : List ℕ → Option Manifest
  pub sha256 : List ℕ → List ℕ
  pub hmac : List ℕ → List ℕ → List ℕ
  pub pack : List FileEntry → List ℕ
  pub unpack : List ℕ → Option (List FileEntry)

-- whether the headers and the bodies, by their number, can be written, and the archive closed
pub record Output : Type 0 where
  pub header : ℕ → Bool
  pub body : ℕ → Bool
  pub close_tar : Bool
  pub close_gzip : Bool

pub data ProfileError : Type 0 where
  panicked close_tar_failed close_gzip_failed : ProfileError
  header_failed body_failed : String → ProfileError
  not_readable no_passphrase wrong_signature no_manifest bad_manifest : ProfileError

abbrev pub Outcome : Type 0 → Type 0
Outcome = Result ProfileError

abbrev pub signature_file : String
signature_file = "signature.bin"

abbrev pub manifest_file : String
manifest_file = "manifest.json"

-- `Build`, with the host name and the time
unfoldable pub build :
    String → String → List ℕ → List ℕ → List ℕ → List ℕ → List ℕ → String → Profile
build hostname now provider catalog permissions opencode pref broker_version = record {
  manifest = record {
    version = "1.0.0";
    exported_at = now;
    exported_by = hostname;
    broker_version = broker_version;
    file_count = 0;
  };
  provider = provider;
  catalog = catalog;
  permissions = permissions;
  opencode = opencode;
  pref = pref;
}

-- the profile after `Export` has set the count of its files
abbrev pub counted : Profile → Profile
counted p = record p { manifest = record p.manifest { file_count = 7 } }

-- the files of the archive but the signature; `profile.json` is made before the count is set
abbrev pub files_of : Codec → Profile → List ℕ → List FileEntry
files_of c p profile_json =
    record { name = "profile.json"; body = profile_json }
    ∷ record { name = "provider-pref.json"; body = p.pref }
    ∷ record { name = "catalog.lock.json"; body = p.catalog }
    ∷ record { name = "permissions.json"; body = p.permissions }
    ∷ record { name = "opencode.snapshot.json"; body = p.opencode }
    ∷ record { name = "provider.json"; body = p.provider }
    ∷ record { name = manifest_file; body = c.manifest_json (counted p).manifest }
    ∷ []

-- the sort by names, and the bodies one after the other
insert_file : FileEntry → List FileEntry → List FileEntry
insert_file f [] = f ∷ []
insert_file f (g ∷ gs) =
    let rest = insert_file f gs in if text_le f.name g.name then f ∷ g ∷ gs else g ∷ rest

unfoldable pub sort_files : List FileEntry → List FileEntry
unfolding insert_file text_le
sort_files [] = []
sort_files (f ∷ fs) = insert_file f (sort_files fs)

abbrev pub bodies : List FileEntry → List ℕ
bodies [] = []
bodies (f ∷ fs) = f.body ++ bodies fs

-- `hmac.New(sha256.New, passphrase)` over the hash of the archive
abbrev pub signature : Codec → String → List ℕ → List ℕ
signature c passphrase content = c.hmac (bytes passphrase) (c.sha256 content)

-- the writes of the files, the first of them with number `n`; `none` is success
unfoldable pub write_files : Output → ℕ → List FileEntry → Option ProfileError
write_files o n [] = none
write_files o n (f ∷ fs) =
    let rest = write_files o (n + 1) fs in
    if not (o.header n)
    then some (header_failed f.name)
    else if not (o.body n)
    then some (body_failed f.name)
    else rest

abbrev pub closed : Codec → Output → List FileEntry → Option ProfileError → Outcome (List ℕ)
closed c o fs (some e) = err e
closed c o fs none =
    if not o.close_tar
    then err close_tar_failed
    else if not o.close_gzip
    then err close_gzip_failed
    else ok (c.pack fs)

abbrev pub signed : Codec → String → List FileEntry → List FileEntry
signed c passphrase fs =
    if passphrase == ""
    then fs
    else fs
      ++ record { name = signature_file; body = signature c passphrase (bodies (sort_files fs)) }
        ∷ []

abbrev pub export_files : Codec → Output → String → List FileEntry → Outcome (List ℕ)
export_files c o passphrase fs =
    let all = signed c passphrase fs in closed c o all (write_files o 0 all)

-- `Export`: what it has written where it returns no error
abbrev pub export_with : Codec → Output → Profile → String → Option (List ℕ) → Outcome (List ℕ)
export_with c o p passphrase none = err panicked
export_with c o p passphrase (some profile_json) =
    export_files c o passphrase (files_of c p profile_json)

unfoldable pub export : Codec → Output → Profile → String → Outcome (List ℕ)
unfolding write_files sort_files bytes
export c o p passphrase = export_with c o p passphrase (c.profile_json p)

-- the map of `Import`, of the files in the order of the archive
unfoldable pub file_map : Dict (List ℕ) → List FileEntry → Dict (List ℕ)
file_map m [] = m
file_map m (f ∷ fs) = file_map (put f.name f.body m) fs

-- a read of the map, which gives nil for a missing name
abbrev pub or_empty : Option (List ℕ) → List ℕ
or_empty none = []
or_empty (some bs) = bs

abbrev pub content_of : Dict (List ℕ) → List String → List ℕ
content_of m [] = []
content_of m (n ∷ ns) = or_empty (get n m) ++ content_of m ns

-- the bytes that a signature is checked against
abbrev pub signed_content : Dict (List ℕ) → List ℕ
signed_content m = content_of m (sort_strings (keep_if (λ n. not (n == signature_file)) (keys m)))

-- the check of the signature: the error, if it fails
abbrev pub check_signature : Codec → String → Dict (List ℕ) → Option (List ℕ) → Option ProfileError
check_signature c passphrase m none = none
check_signature c passphrase m (some sig) =
    if passphrase == ""
    then some no_passphrase
    else if eq_bytes (signature c passphrase (signed_content m)) sig
    then none
    else some wrong_signature

abbrev pub parsed : Dict (List ℕ) → Option Manifest → Outcome Profile
parsed m none = err bad_manifest
parsed m (some manifest) = ok (record {
  manifest = manifest;
  provider = or_empty (get "provider.json" m);
  catalog = or_empty (get "catalog.lock.json" m);
  permissions = or_empty (get "permissions.json" m);
  opencode = or_empty (get "opencode.snapshot.json" m);
  pref = or_empty (get "provider-pref.json" m);
})

abbrev pub profile_in : Codec → Dict (List ℕ) → Option (List ℕ) → Outcome Profile
profile_in c m none = err no_manifest
profile_in c m (some bs) = parsed m (c.parse_manifest bs)

abbrev pub verified : Codec → Dict (List ℕ) → Option ProfileError → Outcome Profile
verified c m (some e) = err e
verified c m none = profile_in c m (get manifest_file m)

unfoldable pub import_map : Codec → String → Dict (List ℕ) → Outcome Profile
unfolding sort_strings eq_bytes bytes
import_map c passphrase m = verified c m (check_signature c passphrase m (get signature_file m))

-- `Import`
abbrev pub import_files : Codec → String → Option (List FileEntry) → Outcome Profile
import_files c passphrase none = err not_readable
import_files c passphrase (some fs) = import_map c passphrase (file_map [] fs)

unfoldable pub import : Codec → List ℕ → String → Outcome Profile
unfolding import_map file_map
import c archive passphrase = import_files c passphrase (c.unpack archive)
