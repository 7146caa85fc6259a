-- ===== src/Packfile/Accepts.antt =====
-- packfile/packfile.go, `NewFromBytes` on any bytes: it ends, and what it accepts is checked.
use plakar.Prelude.{
  refl, take, ℕ, zero, suc, ◌+◌, ◌-◌, ◌%◌, ◌^◌, ◌≤◌, ◌≡◌, ◌∙◌, List, [], ◌∷◌, ◌++◌, length,
  append_assoc, append-nil, arith, Result, Error, Bool, ok, err, panic, stuck, true, false, ◌>>=◌,
  ◌>>◌, >>=-eq-ok, All, ◌==◌, leb, guard, ensure, if◌then◌else◌, Bool-cases, inl, inr,
  blob_out_of_bounds,
}
use plakar.Wire.{read_full_takes, beq_bytes_eq, Bytes, read_full, read_uint, to_mac, beq_bytes}
use plakar.Packfile.Reader.{InBounds}
use plakar.Packfile.{
  PackFileFooter, new, Blob, PackFile, blob_bytes, index_bytes, read_blob, read_footer, read_index,
  check_mac, new_from_bytes, blob_record_size, footer_size,
}

-- The computation does not run out of fuel.
abbrev pub Ends {ℓ} : {A : Type ℓ} → Result A → Type 0
Ends stuck = ⊥
Ends _ = Unit

bind-Ends {ℓ κ} :
    {A : Type ℓ} {B : Type κ} (m : Result A) (f : A → Result B)
    → Ends m
    → ((a : A) → Ends (f a))
    → Ends (m >>= f)
bind-Ends (ok a) f h k = k a
bind-Ends (err e) f h k = tt
bind-Ends panic f h k = tt
bind-Ends stuck f h k = h

guard-Ends {ℓ} : {B : Type ℓ} (c : Bool) (e : Error) (k : Result B) → Ends k → Ends (guard c e >> k)
guard-Ends true e k h = h
guard-Ends false e k h = tt

ensure-Ends {ℓ} : {B : Type ℓ} (c : Bool) (k : Result B) → Ends k → Ends (ensure c >> k)
ensure-Ends true k h = h
ensure-Ends false k h = tt

if-Ends {ℓ} : {A : Type ℓ} (c : Bool) (x y : Result A) → Ends x → Ends y → Ends (if c then x else y)
if-Ends true x y hx hy = hx
if-Ends false x y hx hy = hy

pub read_full-Ends : (n : ℕ) (r : Bytes) → Ends (read_full n r)
unfolding read_full
read_full-Ends n r = ground arith

read_uint-Ends : (n : ℕ) (r : Bytes) → Ends (read_uint n r)
unfolding read_uint
read_uint-Ends n r = bind-Ends (read_full n r) _ (read_full-Ends n r) (λ a. tt)

read_blob-Ends : (r : Bytes) → Ends (read_blob r)
unfolding read_blob
read_blob-Ends r = bind-Ends (read_uint 4 r) _ (read_uint-Ends 4 r) λ (t, r).
    bind-Ends (read_uint 4 r) _ (read_uint-Ends 4 r) λ (v, r).
      bind-Ends (read_full 32 r) _ (read_full-Ends 32 r) λ (m, r).
        bind-Ends (read_uint 8 r) _ (read_uint-Ends 8 r) λ (o, r).
          bind-Ends (read_uint 4 r) _ (read_uint-Ends 4 r)
            λ (l, r). bind-Ends (read_uint 4 r) _ (read_uint-Ends 4 r) λ a. tt

read_index-Ends :
    (fuel remaining : ℕ) (r : Bytes) (p : PackFile)
    → remaining ≤ fuel
    → Ends (read_index fuel remaining r p)
unfolding read_index
read_index-Ends zero remaining r p h = ground arith
read_index-Ends (suc fuel) remaining r p h = if-Ends (remaining == 0) (ok p) _ tt (
    bind-Ends (read_blob r) _ (read_blob-Ends r) λ (b, r').
      guard-Ends (leb ((b.offset + b.length) % 2 ^ 64) p.footer.index_offset) _ _ (
        read_index-Ends fuel (remaining - blob_record_size) r'
          (record p { hasher = p.hasher ++ blob_bytes b; index = p.index ++ b ∷ [] })
          (omega arith)))

read_footer-Ends : (version : ℕ) (r : Bytes) → Ends (read_footer version r)
unfolding read_footer
read_footer-Ends version r = bind-Ends (read_uint 8 r) _ (read_uint-Ends 8 r) λ (t, r).
    bind-Ends (read_uint 4 r) _ (read_uint-Ends 4 r) λ (c, r).
      bind-Ends (read_uint 8 r) _ (read_uint-Ends 8 r) λ (o, r).
        bind-Ends (read_full 32 r) _ (read_full-Ends 32 r)
          λ (m, r). bind-Ends (read_uint 4 r) _ (read_uint-Ends 4 r) λ a. tt

to_mac-Ends : (b : Bytes) → Ends (to_mac b)
unfolding to_mac
to_mac-Ends b = ground arith

check_mac-Ends : (sum : Bytes → Bytes) (max_len : ℕ) (p : PackFile) → Ends (check_mac sum max_len p)
unfolding check_mac
check_mac-Ends sum max_len p =
    bind-Ends (to_mac (sum p.hasher)) _ (to_mac-Ends (sum p.hasher))
      λ mac. guard-Ends (beq_bytes mac p.footer.index_mac) _ _ tt

-- `NewFromBytes` ends on every input: its loop over the index never outlasts the bytes that remain.
pub new_from_bytes-Ends :
    (sum : Bytes → Bytes) (max_len : ℕ) (hasher : Bytes) (now version : ℕ) (serialized : Bytes)
    → Ends (new_from_bytes sum max_len hasher now version serialized)
unfolding new_from_bytes
new_from_bytes-Ends sum max_len hasher now version serialized =
    guard-Ends (leb footer_size (length serialized)) _ _ (
      bind-Ends (read_footer version _) _ (read_footer-Ends version _) λ (footer, _).
        ensure-Ends (leb footer.index_offset max_len) _ (
          bind-Ends (read_full footer.index_offset serialized) _ (read_full-Ends _ serialized)
            λ (blobs, r).
              bind-Ends (read_index _ _ r _) _ (read_index-Ends _ _ r _ (omega arith))
                λ p'. check_mac-Ends sum max_len p'))

-- What the loop over the index did to the packfile.
abbrev Loaded : PackFile → PackFile → Type 0
Loaded p p' =
    (records : List Blob) × (p'
      ≡ record p { hasher = p.hasher ++ index_bytes records; index = p.index ++ records })
    × All (InBounds p.footer.index_offset) records

Loaded-none : (p p' : PackFile) → ok p ≡ ok p' → Loaded p p'
unfolding index_bytes
Loaded-none p p' e = ([], rw (append-nil p.hasher, append-nil p.index) (cc), tt)

Loaded-more :
    (p p' : PackFile) (b : Blob)
    → InBounds p.footer.index_offset b
    → Loaded (record p { hasher = p.hasher ++ blob_bytes b; index = p.index ++ b ∷ [] }) p'
    → Loaded p p'
unfolding index_bytes
Loaded-more p p' b hb (records, e, h) =
    (b ∷ records, e ∙ rw (append_assoc p.hasher, append_assoc p.index), (hb, h))

read_index-Loaded :
    (fuel remaining : ℕ) (r : Bytes) (p p' : PackFile)
    → read_index fuel remaining r p ≡ ok p'
    → Loaded p p'
unfolding read_index
read_index-Loaded zero remaining r p p' h = elim (Bool-cases (remaining == 0)) [
  | inl e ↦ Loaded-none p p' (rw e at h)
  | inr e ↦ absurd (stuck-ne-ok (rw e at h))
]
  where
    stuck-ne-ok : stuck ≡ ok p' → ⊥
    stuck-ne-ok e = cc
read_index-Loaded (suc fuel) remaining r p p' h = elim (Bool-cases (remaining == 0)) [
  | inl e ↦ Loaded-none p p' (rw e at h)
  | inr e ↦
      let ((b, r'), _, h₁) = >>=-eq-ok (read_blob r) _ (rw e at h) in
      let (_, g, h₂) =
        >>=-eq-ok
          (guard (leb ((b.offset + b.length) % 2 ^ 64) p.footer.index_offset) blob_out_of_bounds) _
          h₁ in
      Loaded-more p p' b (guarded ((b.offset + b.length) % 2 ^ 64) p.footer.index_offset g)
        (read_index-Loaded fuel (remaining - blob_record_size) r' _ p' h₂)
]
  where
    guarded : (m n : ℕ) {u : Unit {0}} → guard (leb m n) blob_out_of_bounds ≡ ok u → m ≤ n
    guarded m n g = ground arith

-- What holds of a packfile that `NewFromBytes` returns.
pub record Accepted (sum : Bytes → Bytes) (serialized : Bytes) (p : PackFile) : Type 0 where
  pub data_size : length p.blobs ≡ p.footer.index_offset
  pub is_prefix : p.blobs ≡ take p.footer.index_offset serialized
  pub hashed : p.hasher ≡ index_bytes p.index
  pub mac_matches : take 32 (sum p.hasher) ≡ p.footer.index_mac
  pub checked : All (InBounds p.footer.index_offset) p.index

check_mac-ok :
    (sum : Bytes → Bytes) (max_len : ℕ) (p p' : PackFile)
    → check_mac sum max_len p ≡ ok p'
    → (p' ≡ p) × (take 32 (sum p.hasher) ≡ p.footer.index_mac)
unfolding check_mac to_mac
check_mac-ok sum max_len p p' h =
    ground (arith, beq_bytes_eq (take 32 (sum p.hasher)) p.footer.index_mac)

read_full-ok :
    (n : ℕ) (r xs ys : Bytes) → read_full n r ≡ ok (xs, ys) → (xs ≡ take n r) × (length xs ≡ n)
unfolding read_full
read_full-ok n r xs ys h = (ground arith, (read_full_takes n r xs ys h).0)

module _ (sum : Bytes → Bytes) (max_len : ℕ) where
  Loaded-Accepted :
      (now : ℕ) (serialized blobs r : Bytes) (footer : PackFileFooter) (p' p : PackFile)
      → read_full footer.index_offset serialized ≡ ok (blobs, r)
      → Loaded (record (new [] now) { hasher = []; blobs = blobs; footer = footer }) p'
      → check_mac sum max_len p' ≡ ok p
      → Accepted sum serialized p
  unfolding new
  Loaded-Accepted now serialized blobs r footer p' p hr (records, e, checked) hc =
      let (same, mac) = check_mac-ok sum max_len p' p hc in
      let (front, size) = read_full-ok footer.index_offset serialized blobs r hr in
      rw (same ∙ e) (record {
        data_size = size;
        is_prefix = front;
        hashed = refl;
        mac_matches = rw e at mac;
        checked = checked;
      })

  -- A packfile that `NewFromBytes` returns holds the first bytes of its input as its data, as many as
  -- its footer says; the hash of its index is the MAC of the footer; each record passed the bounds
  -- check, with the sum taken modulo 2 ^ 64.
  pub new_from_bytes-Accepted :
      (hasher : Bytes) (now version : ℕ) (serialized : Bytes) (p : PackFile)
      → new_from_bytes sum max_len hasher now version serialized ≡ ok p
      → Accepted sum serialized p
  unfolding new_from_bytes new
  new_from_bytes-Accepted hasher now version serialized p h =
      let (_, _, h₁) = >>=-eq-ok (guard (leb footer_size (length serialized)) _) _ h in
      let ((footer, _), _, h₂) = >>=-eq-ok (read_footer version _) _ h₁ in
      let (_, _, h₃) = >>=-eq-ok (ensure (leb footer.index_offset max_len)) _ h₂ in
      let ((blobs, r), e₄, h₄) = >>=-eq-ok (read_full footer.index_offset serialized) _ h₃ in
      let (p', e₅, h₅) = >>=-eq-ok (read_index _ _ r _) _ h₄ in
      Loaded-Accepted now serialized blobs r footer p' p e₄ (read_index-Loaded _ _ r _ p' e₅) h₅
