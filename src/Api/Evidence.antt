-- ===== src/Api/Evidence.antt =====
-- internal/api/evidence.go: where a dispute's files are kept, and under what names. A name is the list of its code
-- points, and a key that of its bytes, which are ASCII behind the prefix. The signature of a policy and what S3 answers
-- are parameters.
pub mod Names
pub mod Keys
use dispute_router.Common.{
  ℕ, zero, suc, ◌+◌, ◌-◌, ◌*◌, Bool, true, false, ◌&&◌, ◌||◌, List, [], ◌∷◌, ◌++◌, Option, none,
  some, leb, ltb, ◌==◌, length, take, if◌then◌else◌,
}
use dispute_router.Common.Bytes.{Bytes, codes, decimal, bytes_eq}
use dispute_router.Common.Text.{trim_space, starts_with}

-- The keys of `allowedTypes`.
unfoldable pub is_allowed_type : Bytes → Bool
is_allowed_type t =
    bytes_eq t (codes "application/pdf")
    || bytes_eq t (codes "image/png")
    || bytes_eq t (codes "image/jpeg")
    || bytes_eq t (codes "text/plain")
    || bytes_eq t (codes "text/csv")

-- `prefix`.
unfoldable pub prefix : ℕ → Bytes
prefix id = codes "disputes/" ++ (decimal id ++ (b'/' ∷ []))

unfoldable pub ended : (ℕ → Bool) → ℕ → Bytes → Bytes
ended p c [] = if p c then [] else c ∷ []
ended p c (d ∷ s) = c ∷ d ∷ s

-- strings.Trim at the end and at the start, of the characters that `p` accepts.
unfoldable pub trim_end : (ℕ → Bool) → Bytes → Bytes
unfolding ended
trim_end p [] = []
trim_end p (c ∷ s) = ended p c (trim_end p s)

unfoldable pub trim_start : (ℕ → Bool) → Bytes → Bytes
trim_start p [] = []
trim_start p (c ∷ s) = let rest = trim_start p s in if p c then rest else c ∷ s

abbrev is_slash : ℕ → Bool
is_slash c = c == b'/'

-- What stands behind the last slash.
unfoldable pub after_slash : Bytes → Bytes → Bytes
after_slash found [] = found
after_slash found (c ∷ s) = after_slash (if c == b'/' then s else found) s

base_of : Bytes → Bytes
unfolding after_slash
base_of [] = b'/' ∷ []
base_of (c ∷ s) = after_slash (c ∷ s) (c ∷ s)

-- path.Base.
unfoldable pub path_base : Bytes → Bytes
unfolding trim_end base_of
path_base [] = b'.' ∷ []
path_base (c ∷ s) = base_of (trim_end is_slash (c ∷ s))

-- The characters that safeName keeps.
unfoldable pub is_kept : ℕ → Bool
is_kept r =
    (leb b'a' r && leb r b'z')
    || (leb b'A' r && leb r b'Z')
    || (leb b'0' r && leb r b'9')
    || r == b'.'
    || r == b'-'
    || r == b'_'

-- The loop of safeName.
unfoldable pub restricted : Bytes → Bytes
unfolding is_kept
restricted [] = []
restricted (r ∷ name) = (if is_kept r then r else b'-') ∷ restricted name

abbrev pub is_edge : ℕ → Bool
is_edge c = c == b'-' || c == b'.'

abbrev pub max_name : ℕ
max_name = 120

unfoldable pub cleaned : Bytes → Bytes
unfolding trim_start trim_end restricted
cleaned name = take max_name (trim_end is_edge (trim_start is_edge (restricted name)))

-- `safeName`; white space is that of ASCII.
unfoldable pub safe_name : Bytes → Bytes
unfolding path_base cleaned
safe_name name =
    let base = path_base (trim_space name) in
    if bytes_eq base (codes ".") || bytes_eq base (codes "/") then [] else cleaned base

-- The policy that is signed.
pub record Policy : Type 0 where
  pub key : Bytes
  pub content_type : Bytes
  pub least_bytes : ℕ
  pub most_bytes : ℕ

pub data Upload : Type 0 where
  bad_type empty_name signing_failed : Upload
  target : Policy → Upload

-- `MaxUploadBytes`.
abbrev pub max_upload_bytes : ℕ
max_upload_bytes = 26214400

unfoldable pub key_of : ℕ → ℕ → Bytes → Bytes
unfolding prefix
key_of id seconds name = prefix id ++ (decimal seconds ++ (b'-' ∷ name))

unfoldable pub presigned : (Policy → Bool) → ℕ → ℕ → Bytes → Bytes → Upload
unfolding key_of
presigned signs id seconds [] content_type = empty_name
presigned signs id seconds (c ∷ name) content_type =
    let policy : Policy = record {
      key = key_of id seconds (c ∷ name);
      content_type = content_type;
      least_bytes = 1;
      most_bytes = max_upload_bytes;
    } in
    if signs policy then target policy else signing_failed

-- `PresignUpload`.
unfoldable pub presign_upload : (Policy → Bool) → ℕ → ℕ → Bytes → Bytes → Upload
unfolding presigned safe_name is_allowed_type
presign_upload signs id seconds filename content_type =
    if is_allowed_type content_type
    then presigned signs id seconds (safe_name filename) content_type
    else bad_type

pub data Opened (A : Type 0) : Type 0 where
  not_on_dispute not_got : Opened A
  opened : A → Opened A

unfoldable pub fetched : {A : Type 0} → Option A → Opened A
fetched none = not_got
fetched (some a) = opened a

-- `Open`, with what GetObject answers for a key.
unfoldable pub open_file : {A : Type 0} → (Bytes → Option A) → ℕ → Bytes → Opened A
unfolding prefix fetched
open_file get id key = if starts_with (prefix id) key then fetched (get key) else not_on_dispute
