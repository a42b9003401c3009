-- ===== src/Prelude/Base64.antt =====
-- encoding/base64's StdEncoding, as the program uses it: EncodeToString, and DecodeString, which skips
-- line breaks, wants padding, and does not look at the bits that padding leaves over.
use mathlib.Core.Path.{◌≡◌, subst, refl, ap, ap₂, ◌∙◌}
use mathlib.Core.Logic.{inl, inr}
use mathlib.Core.Bool.{false, ◌&&◌, ◌||◌}
use mathlib.Core.List.{[], ◌∷◌}
use mathlib.Core.Option.{Option, none, some}
use Prim.Native.Nat.{ℕ, ◌+◌, ◌-◌, ◌*◌, ◌/◌, ◌%◌, ◌<◌}
use native.Mathlib.Omega.{arith}
use k8s.Prelude.Tests.{ltb, leb, ◌==◌, if◌then◌else◌, Bool-cases, Option-cases}
use k8s.Prelude.Text.{Str, is_empty}
use k8s.Prelude.Lists.{All}

infixl 5 ◌>>=◌
abbrev ◌>>=◌ {ℓ κ} : {A : Type ℓ} {B : Type κ} → Option A → (A → Option B) → Option B
none >>= f = none
some a >>= f = f a

sextet_char : ℕ → ℕ
sextet_char s =
    if ltb s 26
    then b'A' + s
    else if ltb s 52
    then b'a' + (s - 26)
    else if ltb s 62
    then b'0' + (s - 52)
    else if s == 62
    then b'+'
    else b'/'

sextet : ℕ → Option ℕ
sextet c =
    if leb b'A' c && leb c b'Z'
    then some (c - b'A')
    else if leb b'a' c && leb c b'z'
    then some (c - b'a' + 26)
    else if leb b'0' c && leb c b'9'
    then some (c - b'0' + 52)
    else if c == b'+'
    then some 62
    else if c == b'/'
    then some 63
    else none

unfoldable pub encode : Str → Str
unfolding sextet_char
encode [] = []
encode (a ∷ []) = sextet_char (a / 4) ∷ sextet_char (a % 4 * 16) ∷ b'=' ∷ b'=' ∷ []
encode (a ∷ b ∷ []) =
    sextet_char (a / 4) ∷ sextet_char (a % 4 * 16 + b / 16) ∷ sextet_char (b % 16 * 4) ∷ b'=' ∷ []
encode (a ∷ b ∷ c ∷ rest) =
    sextet_char (a / 4)
    ∷ sextet_char (a % 4 * 16 + b / 16)
    ∷ sextet_char (b % 16 * 4 + c / 64)
    ∷ sextet_char (c % 64)
    ∷ encode rest

first_byte : ℕ → ℕ → ℕ
first_byte s t = s * 4 + t / 16

second_byte : ℕ → ℕ → ℕ
second_byte t u = t % 16 * 16 + u / 4

third_byte : ℕ → ℕ → ℕ
third_byte u v = u % 4 * 64 + v

decode_quads : Str → Option Str
unfolding sextet first_byte second_byte third_byte
decode_quads [] = some []
decode_quads (a ∷ b ∷ c ∷ d ∷ rest) =
    let tail = decode_quads rest in
    do
      s ← sextet a
      t ← sextet b
      if c == b'='
          then (if (d == b'=') && is_empty rest then some (first_byte s t ∷ []) else none)
          else do
            u ← sextet c
            if d == b'='
                then (if is_empty rest then some (first_byte s t ∷ second_byte t u ∷ []) else none)
                else do
                  v ← sextet d
                  out ← tail
                  some (first_byte s t ∷ second_byte t u ∷ third_byte u v ∷ out)
decode_quads _ = none

without_line_breaks : Str → Str
without_line_breaks [] = []
without_line_breaks (c ∷ s) =
    let rest = without_line_breaks s in if (c == 10) || (c == 13) then rest else c ∷ rest

unfoldable pub decode : Str → Option Str
unfolding decode_quads without_line_breaks
decode s = decode_quads (without_line_breaks s)

sextet-sextet_char : (s : ℕ) → s < 64 → sextet (sextet_char s) ≡ some s
unfolding sextet sextet_char
sextet-sextet_char s h = ground arith

-- A character of the alphabet is neither padding nor a line break.
sextet_char_plain :
    (s : ℕ)
    → s < 64
    → ((sextet_char s == b'=') ≡ false)
      × ((sextet_char s == 10) ≡ false)
      × ((sextet_char s == 13) ≡ false)
unfolding sextet_char
sextet_char_plain s h = ground arith

abbrev pub IsByte : ℕ → Type 0
IsByte b = b < 256

-- A text with no line breaks.
Kept : Str → Type 0
Kept s = without_line_breaks s ≡ s

Kept-cons : (x : ℕ) (s : Str) → x < 64 → Kept s → Kept (sextet_char x ∷ s)
unfolding Kept without_line_breaks
Kept-cons x s h k = ground (arith, sextet_char_plain x h)

Kept-padding : Kept (b'=' ∷ b'=' ∷ []) × Kept (b'=' ∷ [])
unfolding Kept without_line_breaks
Kept-padding = (refl, refl)

encode-Kept : (s : Str) → All IsByte s → Kept (encode s)
unfolding encode
encode-Kept [] h = unfold Kept without_line_breaks in refl
encode-Kept (a ∷ []) h =
    Kept-cons (a / 4) _ (omega (arith, h.0)) (Kept-cons (a % 4 * 16) _ (omega arith) Kept-padding.0)
encode-Kept (a ∷ b ∷ []) h = Kept-cons (a / 4) _ (omega (arith, h.0)) (
    Kept-cons (a % 4 * 16 + b / 16) _ (omega (arith, h.1.0))
      (Kept-cons (b % 16 * 4) _ (omega arith) Kept-padding.1))
encode-Kept (a ∷ b ∷ c ∷ rest) h = Kept-cons (a / 4) _ (omega (arith, h.0)) (
    Kept-cons (a % 4 * 16 + b / 16) _ (omega (arith, h.1.0)) (
      Kept-cons (b % 16 * 4 + c / 64) _ (omega (arith, h.1.1.0))
        (Kept-cons (c % 64) _ (omega arith) (encode-Kept rest h.1.1.1))))

decode_one :
    (s t : ℕ)
    → s < 64
    → t < 64
    → decode_quads (sextet_char s ∷ sextet_char t ∷ b'=' ∷ b'=' ∷ []) ≡ some (first_byte s t ∷ [])
unfolding decode_quads is_empty
decode_one s t hs ht = rw (sextet-sextet_char s hs, sextet-sextet_char t ht, decode_quads) refl

decode_two :
    (s t u : ℕ)
    → s < 64
    → t < 64
    → u < 64
    → decode_quads (sextet_char s ∷ sextet_char t ∷ sextet_char u ∷ b'=' ∷ [])
      ≡ some (first_byte s t ∷ second_byte t u ∷ [])
unfolding decode_quads is_empty
decode_two s t u hs ht hu =
    rw
      (
        sextet-sextet_char s hs,
        sextet-sextet_char t ht,
        sextet-sextet_char u hu,
        (sextet_char_plain u hu).0,
        decode_quads,
      )
      refl

decode_three :
    (s t u v : ℕ) (rest out : Str)
    → s < 64
    → t < 64
    → u < 64
    → v < 64
    → decode_quads rest ≡ some out
    → decode_quads (sextet_char s ∷ sextet_char t ∷ sextet_char u ∷ sextet_char v ∷ rest)
      ≡ some (first_byte s t ∷ second_byte t u ∷ third_byte u v ∷ out)
unfolding decode_quads
decode_three s t u v rest out hs ht hu hv e =
    rw
      (
        e,
        sextet-sextet_char s hs,
        sextet-sextet_char t ht,
        sextet-sextet_char u hu,
        sextet-sextet_char v hv,
        (sextet_char_plain u hu).0,
        (sextet_char_plain v hv).0,
        decode_quads,
      )
      refl

decode_quads-encode : (s : Str) → All IsByte s → decode_quads (encode s) ≡ some s
unfolding encode decode_quads first_byte second_byte third_byte
decode_quads-encode [] h = refl
decode_quads-encode (a ∷ []) h =
    decode_one (a / 4) (a % 4 * 16) (omega (arith, h.0)) (omega arith)
    ∙ ap (λ x. some (x ∷ [])) (omega arith)
decode_quads-encode (a ∷ b ∷ []) h =
    decode_two (a / 4) (a % 4 * 16 + b / 16) (b % 16 * 4) (omega (arith, h.0))
      (omega (arith, h.1.0)) (omega arith)
    ∙ ap₂ (λ x y. some (x ∷ y ∷ [])) (omega (arith, h.1.0)) (omega (arith, h.1.0))
decode_quads-encode (a ∷ b ∷ c ∷ rest) h =
    decode_three (a / 4) (a % 4 * 16 + b / 16) (b % 16 * 4 + c / 64) (c % 64) (encode rest) rest
      (omega (arith, h.0)) (omega (arith, h.1.0)) (omega (arith, h.1.1.0)) (omega arith)
      (decode_quads-encode rest h.1.1.1)
    ∙ ap₂ (λ x y. some (x ∷ y ∷ third_byte (b % 16 * 4 + c / 64) (c % 64) ∷ rest))
        (omega (arith, h.1.0)) (omega (arith, h.1.1.0, h.1.0))
    ∙ ap (λ z. some (a ∷ b ∷ z ∷ rest)) (omega (arith, h.1.1.0))

-- Decoding gives back the bytes that were encoded.
pub decode-encode : (s : Str) → All IsByte s → decode (encode s) ≡ some s
unfolding decode Kept
decode-encode s h = ap decode_quads (encode-Kept s h) ∙ decode_quads-encode s h

sextet_bound : (c s : ℕ) → sextet c ≡ some s → s < 64
unfolding sextet
sextet_bound c s h = ground arith

abbrev SomeBytes : Option Str → Type 0
SomeBytes none = Unit
SomeBytes (some out) = All IsByte out

decode_quads-SomeBytes : (s : Str) → SomeBytes (decode_quads s)
unfolding decode_quads first_byte second_byte third_byte
decode_quads-SomeBytes [] = tt
decode_quads-SomeBytes (a ∷ []) = tt
decode_quads-SomeBytes (a ∷ b ∷ []) = tt
decode_quads-SomeBytes (a ∷ b ∷ c ∷ []) = tt
decode_quads-SomeBytes (a ∷ b ∷ c ∷ d ∷ rest) = elim (Option-cases (sextet a)) [
  | inl e ↦ rw (e, decode_quads) tt
  | inr (s, e) ↦ elim (Option-cases (sextet b)) [
    | inl f ↦ rw (e, f, decode_quads) tt
    | inr (t, f) ↦
        let first : s * 4 + t / 16 < 256 = omega (arith, sextet_bound a s e, sextet_bound b t f) in
        elim (Bool-cases (c == b'=')) [
          | inl p ↦ elim (Bool-cases ((d == b'=') && is_empty rest)) [
            | inl q ↦ rw (e, f, p, q, decode_quads) (first, tt)
            | inr q ↦ rw (e, f, p, q, decode_quads) tt
          ]
          | inr p ↦ elim (Option-cases (sextet c)) [
            | inl g ↦ rw (e, f, p, g, decode_quads) tt
            | inr (u, g) ↦
                let second : t % 16 * 16 + u / 4 < 256 = omega (arith, sextet_bound c u g) in
                elim (Bool-cases (d == b'=')) [
                  | inl q ↦ elim (Bool-cases (is_empty rest)) [
                    | inl r ↦ rw (e, f, p, g, q, r, decode_quads) (first, (second, tt))
                    | inr r ↦ rw (e, f, p, g, q, r, decode_quads) tt
                  ]
                  | inr q ↦ elim (Option-cases (sextet d)) [
                    | inl k ↦ rw (e, f, p, g, q, k, decode_quads) tt
                    | inr (v, k) ↦
                        let third : u % 4 * 64 + v < 256 = omega (arith, sextet_bound d v k) in
                        elim (Option-cases (decode_quads rest)) [
                          | inl m ↦ rw (e, f, p, g, q, k, m, decode_quads) tt
                          | inr (out, m) ↦
                              rw (e, f, p, g, q, k, m, decode_quads)
                                (
                                  first,
                                  (
                                    second,
                                    (third, subst SomeBytes m (decode_quads-SomeBytes rest)),
                                  ),
                                )
                        ]
                  ]
                ]
          ]
        ]
  ]
]

-- What decodes is bytes.
pub decode-IsByte : (s out : Str) → decode s ≡ some out → All IsByte out
unfolding decode
decode-IsByte s out h = subst SomeBytes h (decode_quads-SomeBytes (without_line_breaks s))
