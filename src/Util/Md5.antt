-- ===== src/Util/Md5.antt =====
-- be/util/md5.{h,cpp}: Md5Digest. OpenSSL's MD5 is a parameter; the hexadecimal text is the code's.
pub mod Sample
use sr_scanner_demo.Base.{
  join_all, ap, ◌∙◌, ℕ, ◌+◌, ◌*◌, ◌/◌, ◌%◌, ◌-◌, ◌<◌, ◌≤◌, List, [], ◌∷◌, ◌≡◌, refl, ◌⊎◌, arith,
  Bytes, All, length, ltb, if◌then◌else◌,
}

-- MD5_CTX with MD5_Init, MD5_Update and MD5_Final.
pub record Md5 : Type 1 where
  pub Context : Type 0
  pub md5_init : Context
  pub md5_update : Context → Bytes → Context
  pub md5_final : Context → Bytes

-- `update` on one piece after the other.
abbrev pub feed_all {ℓ} : {C : Type ℓ} → (C → Bytes → C) → C → List Bytes → C
feed_all update c [] = c
feed_all update c (s ∷ fed) = feed_all update (update c s) fed

-- The digest of a text fed in pieces is that of the whole text, and a text of bytes.
pub record IsMd5 (m : Md5) : Type 0 where
  pub md5 : Bytes → Bytes
  pub final_fed :
      (fed : List Bytes)
      → Md5.md5_final m (feed_all (Md5.md5_update m) (Md5.md5_init m) fed) ≡ md5 (join_all fed)
  pub bytes : (s : Bytes) → All (λ b. b < 256) (md5 s)

-- `dig_vec_lower[i]`
abbrev pub dig_vec_lower : ℕ → ℕ
dig_vec_lower i = if ltb i 10 then b'0' + i else b'a' + (i - 10)

-- The loop of `digest()`: two digits for each byte of the digest.
unfoldable pub hex : Bytes → Bytes
hex [] = []
hex (i ∷ buf) = dig_vec_lower (i / 16) ∷ dig_vec_lower (i % 16) ∷ hex buf

-- The value of a lower-case digit.
abbrev pub digit_value : ℕ → ℕ
digit_value c = if ltb c b'a' then c - b'0' else c - b'a' + 10

-- The bytes that pairs of digits spell.
unfoldable pub unhex : Bytes → Bytes
unhex [] = []
unhex (a ∷ []) = []
unhex (a ∷ b ∷ s) = (digit_value a * 16 + digit_value b) ∷ unhex s

abbrev pub IsLowerHex : ℕ → Type 0
IsLowerHex c = ((b'0' ≤ c) × (c ≤ b'9')) ⊎ ((b'a' ≤ c) × (c ≤ b'f'))

-- A text of bytes is read back from its hexadecimal text, which has two lower-case digits for each
-- byte.
pub unhex-hex :
    (buf : Bytes)
    → All (λ b. b < 256) buf
    → (unhex (hex buf) ≡ buf) × (length (hex buf) ≡ 2 * length buf) × All IsLowerHex (hex buf)
unfolding hex unhex
unhex-hex [] h = (refl, refl, tt)
unhex-hex (i ∷ buf) (hi, hs) =
    let (back, len, digits) = unhex-hex buf hs in
    (ground (arith, back), omega (arith, len), (ground arith, (ground arith, digits)))

-- Md5Digest
pub record Md5Digest (m : Md5) : Type 0 where
  pub md5_ctx : Md5.Context m
  pub hex_text : Bytes

module _ (m : Md5) where
  -- `Md5Digest()`
  abbrev pub new_digest : Md5Digest m
  new_digest = record { md5_ctx = Md5.md5_init m; hex_text = [] }

  -- `update`
  unfoldable pub update : Bytes → Md5Digest m → Md5Digest m
  update piece d = record d { md5_ctx = Md5.md5_update m d.md5_ctx piece }

  -- `digest`. MD5_Final leaves the context cleared; the class is not used behind it.
  unfoldable pub digest : Md5Digest m → Md5Digest m
  unfolding hex
  digest d = record d { hex_text = hex (Md5.md5_final m d.md5_ctx) }

  abbrev pub update_all : List Bytes → Md5Digest m → Md5Digest m
  update_all [] d = d
  update_all (piece ∷ fed) d = update_all fed (update piece d)

  update_all-context :
      (fed : List Bytes) (d : Md5Digest m)
      → (update_all fed d).md5_ctx ≡ feed_all (Md5.md5_update m) d.md5_ctx fed
  unfolding update
  update_all-context [] d = refl
  update_all-context (piece ∷ fed) d = update_all-context fed (update piece d)

  -- Where MD5 keeps its laws, the text of a digest that was updated piece by piece is read back as the
  -- MD5 digest of all pieces behind each other.
  pub unhex-digest :
      (digests : IsMd5 m) (fed : List Bytes)
      → unhex (digest (update_all fed new_digest)).hex_text ≡ digests.md5 (join_all fed)
  unfolding digest
  unhex-digest digests fed =
      let c : Md5.md5_final m (update_all fed new_digest).md5_ctx ≡ digests.md5 (join_all fed) =
        ap (Md5.md5_final m) (update_all-context fed new_digest) ∙ digests.final_fed fed in
      ap (λ s. unhex (hex s)) c
      ∙ (unhex-hex (digests.md5 (join_all fed)) (digests.bytes (join_all fed))).0
