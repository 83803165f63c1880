-- ===== src/Api/Evidence/Keys.antt =====
-- internal/api/evidence.go: a file belongs to one dispute.
use dispute_router.Common.{
  ℕ, ◌≡◌, ◌≢◌, refl, sym, ap, ◌∙◌, subst, Bool, true, false, ◌&&◌, inl, inr, [], ◌∷◌, ◌++◌,
  append_assoc, Option, ◌==◌, ==_iff, drop, if◌then◌else◌, arith, Bool-cases,
}
use dispute_router.Common.Bytes.{Bytes, decimal}
use dispute_router.Common.Digits.{read, read-decimal}
use dispute_router.Common.Text.{starts_with}
use dispute_router.Api.Evidence.{
  Policy, Upload, target, prefix, key_of, safe_name, presigned, presign_upload, is_allowed_type,
  max_upload_bytes, not_on_dispute, fetched, open_file,
}
use dispute_router.Api.Evidence.Names.{Safe, safe_name-Safe}

starts_with-rest : (p t : Bytes) → starts_with p t ≡ true → (u : Bytes) × (t ≡ p ++ u)
unfolding starts_with
starts_with-rest [] t h = (t, refl)
starts_with-rest (a ∷ p) [] h = ground arith
starts_with-rest (a ∷ p) (c ∷ t) h =
    let (u, e) = starts_with-rest p t (tail h) in (u, ground (arith, e))
  where
    tail : (a == c && starts_with p t) ≡ true → starts_with p t ≡ true
    tail k = ground arith

starts_with-append : (p u : Bytes) → starts_with p (p ++ u) ≡ true
unfolding starts_with
starts_with-append [] u = refl
starts_with-append (a ∷ p) u = ground (arith, starts_with-append p u)

-- The dispute that a key names.
named : Bytes → ℕ
named key = (read 0 (drop 9 key)).0

named-prefix : (id : ℕ) (u : Bytes) → named (prefix id ++ u) ≡ id
unfolding named prefix
named-prefix id u =
    rw (append_assoc (decimal id) (b'/' ∷ []) u) (ap (λ p. p.0) (read-decimal id b'/' u refl))

prefix-other : (i j : ℕ) (u : Bytes) → starts_with (prefix j) (prefix i ++ u) ≡ (i == j)
prefix-other i j u = elim (Bool-cases (starts_with (prefix j) (prefix i ++ u))) [
  | inl e ↦
      let (v, same) = starts_with-rest (prefix j) (prefix i ++ u) e in
      let is : i ≡ j = sym (named-prefix i u) ∙ ap named same ∙ named-prefix j v in
      e ∙ sym ((==_iff i j).1 is)
  | inr e ↦ e ∙ sym (apart e)
]
  where
    no_such : true ≡ false → ⊥
    no_such k = ground arith

    apart : starts_with (prefix j) (prefix i ++ u) ≡ false → (i == j) ≡ false
    apart e = elim (Bool-cases (i == j)) [
      | inr f ↦ f
      | inl f ↦
          let is : i ≡ j = (==_iff i j).0 f in
          let yes_ : starts_with (prefix j) (prefix j ++ u) ≡ false =
            subst (λ (n : ℕ). starts_with (prefix j) (prefix n ++ u) ≡ false) is e in
          absurd (no_such (sym (starts_with-append (prefix j) u) ∙ yes_))
    ]

-- What a signed form lets a browser do: put a file of 1 byte to 25 MiB, of the type that was asked for and is accepted,
-- at a key of the dispute under a safe name.
abbrev pub Bounded : ℕ → ℕ → Bytes → Bytes → Upload → Type 0
Bounded id seconds filename content_type (target policy) =
    (is_allowed_type content_type ≡ true)
    × (policy.content_type ≡ content_type)
    × (policy.least_bytes ≡ 1)
    × (policy.most_bytes ≡ max_upload_bytes)
    × (safe_name filename ≢ [])
    × Safe (safe_name filename)
    × (policy.key ≡ key_of id seconds (safe_name filename))
Bounded id seconds filename content_type _ = Unit

presigned-Bounded :
    (signs : Policy → Bool) (id seconds : ℕ) (filename name content_type : Bytes)
    → safe_name filename ≡ name
    → is_allowed_type content_type ≡ true
    → Bounded id seconds filename content_type (presigned signs id seconds name content_type)
unfolding presigned
presigned-Bounded signs id seconds filename [] content_type e h = tt
presigned-Bounded signs id seconds filename (c ∷ name) content_type e h =
    elim (Bool-cases (
      signs record {
        key = key_of id seconds (c ∷ name);
        content_type = content_type;
        least_bytes = 1;
        most_bytes = max_upload_bytes;
      })) [
        | inl f ↦ rw f (
          h,
          refl,
          refl,
          refl,
          (λ g. some_name (sym e ∙ g)),
          safe_name-Safe filename,
          ap (key_of id seconds) (sym e),
        )
        | inr f ↦ rw f tt
      ]
  where
    some_name : c ∷ name ≡ [] → ⊥
    some_name g = ground arith

-- Whatever is asked for: a form that is signed is for a type on the list, which it fixes, for 1 byte to 25 MiB, and for a
-- key of the dispute under the name that safeName leaves, which is safe and not empty.
pub presign_upload-Bounded :
    (signs : Policy → Bool) (id seconds : ℕ) (filename content_type : Bytes)
    → Bounded id seconds filename content_type
        (presign_upload signs id seconds filename content_type)
unfolding presign_upload
presign_upload-Bounded signs id seconds filename content_type =
    elim (Bool-cases (is_allowed_type content_type)) [
      | inl e ↦
          rw e
            (presigned-Bounded signs id seconds filename (safe_name filename) content_type refl e)
      | inr e ↦ rw e tt
    ]

-- A file that was put on a dispute can be opened through that dispute, and through no other, whatever its name and its time.
pub open_file-key_of :
    {A : Type 0} (get : Bytes → Option A) (i j seconds : ℕ) (name : Bytes)
    → open_file get j (key_of i seconds name)
      ≡ (if i == j then fetched (get (key_of i seconds name)) else not_on_dispute)
unfolding open_file key_of
open_file-key_of get i j seconds name =
    rw (prefix-other i j (decimal seconds ++ (b'-' ∷ name))) refl
