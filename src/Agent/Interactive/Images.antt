-- ===== src/Agent/Interactive/Images.antt =====
-- The images that internal/agent/interactive.go accepts: validatePinnedImage.
use k8s.Prelude.{
  ℕ, zero, suc, ◌+◌, ◌≡◌, ◌↔◌, refl, ap, ◌∙◌, true, false, [], ◌∷◌, ◌++◌, some, length, all, arith,
  Option-cases, inl, inr,
}
use k8s.Prelude.Text.{Str, lit, is_empty, strip_prefix, strip_prefix→append, strip_prefix-append}
use k8s.Errors.{ok}
use k8s.Agent.Interactive.{cut, contains_byte, is_hex_digit, hex_decodes, validate_pinned_image}

cut-parts : (sep s a b : Str) → cut sep s ≡ some (a, b) → s ≡ a ++ (sep ++ b)
unfolding cut
cut-parts sep [] a b = elim (Option-cases (strip_prefix sep [])) [
  | inl e ↦ rw (e, cut) (λ h. absurd cc)
  | inr (rest, e) ↦ rw (e, cut) (λ h. ground (arith, h, strip_prefix→append sep [] rest e))
]
cut-parts sep (c ∷ s) a b = elim (Option-cases (strip_prefix sep (c ∷ s))) [
  | inl e ↦ elim (Option-cases (cut sep s)) [
    | inl later ↦ rw (e, later, cut) (λ h. absurd cc)
    | inr ((a', b'), later) ↦
        rw (e, later, cut) (λ h. ground (arith, h, cut-parts sep s a' b' later))
  ]
  | inr (rest, e) ↦ rw (e, cut) (λ h. ground (arith, h, strip_prefix→append sep (c ∷ s) rest e))
]

-- A text is cut at a mark behind a prefix that does not have the mark's first byte.
cut-append :
    (m : ℕ) (mark a b : Str)
    → contains_byte m a ≡ false
    → cut (m ∷ mark) (a ++ ((m ∷ mark) ++ b)) ≡ some (a, b)
unfolding cut contains_byte strip_prefix
cut-append m mark [] b h = rw (strip_prefix-append (m ∷ mark) b, cut) refl
cut-append m mark (c ∷ a) b h = ground (arith, h, cut-append m mark a b)

hex_decodes-all : (s : Str) → hex_decodes s ≡ true → all is_hex_digit s ≡ true
unfolding hex_decodes all
hex_decodes-all [] h = refl
hex_decodes-all (c ∷ []) h = absurd cc
hex_decodes-all (c ∷ d ∷ s) h = ground (arith, h, hex_decodes-all s)

all-hex_decodes :
    (k : ℕ) (s : Str) → length s ≡ k + k → all is_hex_digit s ≡ true → hex_decodes s ≡ true
unfolding hex_decodes all
all-hex_decodes k [] e h = refl
all-hex_decodes k (c ∷ []) e h = absurd (omega (arith, e))
all-hex_decodes zero (c ∷ d ∷ s) e h = absurd (omega (arith, e))
all-hex_decodes (suc k) (c ∷ d ∷ s) e h = ground (arith, h, all-hex_decodes k s (omega (arith, e)))

all-no_mark : (s : Str) → all is_hex_digit s ≡ true → contains_byte b'@' s ≡ false
unfolding all contains_byte is_hex_digit
all-no_mark [] h = refl
all-no_mark (c ∷ s) h = ground (arith, h, all-no_mark s)

pub record IsPinned (image : Str) : Type 0 where
  pub repository : Str
  pub digest : Str
  pub parts : image ≡ repository ++ (lit "@sha256:" ++ digest)
  pub named : is_empty repository ≡ false
  pub plain : contains_byte b'@' repository ≡ false
  pub long : length digest ≡ 64
  pub hex : all is_hex_digit digest ≡ true

-- An image is accepted exactly if it is a repository without an at sign, @sha256: and 64
-- hexadecimal digits, and the repository is not empty.
pub validate_pinned_image_iff :
    (image : Str) → (validate_pinned_image image ≡ ok tt) ↔ IsPinned image
unfolding validate_pinned_image lit
validate_pinned_image_iff image = (
  elim (Option-cases (cut (lit "@sha256:") image)) [
    | inl e ↦ rw (e, validate_pinned_image) (λ h. absurd cc)
    | inr ((a, d), e) ↦
        rw (e, validate_pinned_image)
          (λ h. record {
            repository = a;
            digest = d;
            parts = cut-parts (lit "@sha256:") image a d e;
            named = ground (arith, h);
            plain = ground (arith, h);
            long = ground (arith, h);
            hex = hex_decodes-all d (ground (arith, h));
          })
  ],
  λ p.
      let found =
        ap (cut (lit "@sha256:")) p.parts
        ∙ cut-append b'@' (lit "sha256:") p.repository p.digest p.plain in
      rw (found, validate_pinned_image)
        (ground (
          arith,
          p.named,
          p.plain,
          p.long,
          all-no_mark p.digest p.hex,
          all-hex_decodes 32 p.digest p.long p.hex,
        )),
)
