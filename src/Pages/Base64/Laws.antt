-- ===== src/Pages/Base64/Laws.antt =====
-- Encoding and decoding together, for the cursors of app/core/pagination.py.
use multi_tenant_saas.Base.{
  ℕ, ◌+◌, ◌*◌, ◌/◌, ◌%◌, ◌<◌, ◌≡◌, refl, ap, ◌∙◌, false, Option, none, some, List, [], ◌∷◌, ◌==◌,
  arith, All,
}
use multi_tenant_saas.Pages.Base64.{
  b64_char, b64encode, sextet, Quad, start, after_one, after_two, after_three, more, proceed, digit,
  b64_step, prepend, b64decode_from, b64decode,
}

sextet-b64_char : (n : ℕ) → n < 64 → sextet (b64_char n) ≡ some n
unfolding sextet b64_char
sextet-b64_char n h = ground arith

pub b64_char_ascii : (n : ℕ) → b64_char n < 128
unfolding b64_char
b64_char_ascii n = ground arith

b64_char_not_pad : (n : ℕ) → (b64_char n == b'=') ≡ false
unfolding b64_char
b64_char_not_pad n = ground arith

b64_step-b64_char : (q : Quad) (n : ℕ) → n < 64 → b64_step q (b64_char n) ≡ digit q n
unfolding b64_step
b64_step-b64_char q n h = rw (b64_char_not_pad n, sextet-b64_char n h) refl

decode_char :
    (q next : Quad) (n : ℕ) (byte : Option ℕ) (chars : List ℕ)
    → n < 64
    → digit q n ≡ more next byte
    → b64decode_from q (b64_char n ∷ chars) ≡ prepend byte (b64decode_from next chars)
unfolding b64decode_from
decode_char q next n byte chars h e =
    ap (λ p. proceed p (λ x. b64decode_from x chars)) (b64_step-b64_char q n h ∙ e)

decode_two :
    (n m : ℕ) (chars : List ℕ)
    → n < 64
    → m < 64
    → b64decode_from start (b64_char n ∷ b64_char m ∷ chars)
      ≡ prepend (some (n * 4 + m / 16)) (b64decode_from (after_two (m % 16)) chars)
decode_two n m chars hn hm =
    decode_char start (after_one n) n none (b64_char m ∷ chars) hn refl
    ∙ decode_char (after_one n) (after_two (m % 16)) m (some (n * 4 + m / 16)) chars hm refl

decode_three :
    (n m k : ℕ) (chars : List ℕ)
    → n < 64
    → m < 64
    → k < 64
    → b64decode_from start (b64_char n ∷ b64_char m ∷ b64_char k ∷ chars)
      ≡ prepend
          (some (n * 4 + m / 16))
          (prepend (some (m % 16 * 16 + k / 4)) (b64decode_from (after_three (k % 4)) chars))
decode_three n m k chars hn hm hk =
    decode_two n m (b64_char k ∷ chars) hn hm
    ∙ ap (prepend (some (n * 4 + m / 16))) (
        decode_char (after_two (m % 16)) (after_three (k % 4)) k (some (m % 16 * 16 + k / 4)) chars
          hk refl)

decode_four :
    (n m k l : ℕ) (chars : List ℕ)
    → n < 64
    → m < 64
    → k < 64
    → l < 64
    → b64decode_from start (b64_char n ∷ b64_char m ∷ b64_char k ∷ b64_char l ∷ chars)
      ≡ prepend (some (n * 4 + m / 16)) (
          prepend
            (some (m % 16 * 16 + k / 4))
            (prepend (some (k % 4 * 64 + l)) (b64decode_from start chars)))
decode_four n m k l chars hn hm hk hl =
    decode_three n m k (b64_char l ∷ chars) hn hm hk
    ∙ ap (λ r. prepend (some (n * 4 + m / 16)) (prepend (some (m % 16 * 16 + k / 4)) r))
        (decode_char (after_three (k % 4)) start l (some (k % 4 * 64 + l)) chars hl refl)

prepend_two :
    (x a y b : ℕ) (r : Option (List ℕ))
    → x ≡ a
    → y ≡ b
    → prepend (some x) (prepend (some y) r) ≡ prepend (some a) (prepend (some b) r)
prepend_two x a y b r e f = cc

-- Decoding what was encoded gives the bytes back.
pub b64decode-b64encode :
    (bytes : List ℕ) → All (λ b. b < 256) bytes → b64decode (b64encode bytes) ≡ some bytes
unfolding b64decode b64encode b64decode_from b64_step
b64decode-b64encode [] h = refl
b64decode-b64encode (a ∷ []) (ha, _) =
    decode_two (a / 4) (a % 4 * 16) (b'=' ∷ b'=' ∷ []) (omega arith) (omega arith)
    ∙ ap (λ (x : ℕ). some (x ∷ [])) (omega arith)
b64decode-b64encode (a ∷ b ∷ []) (ha, (hb, _)) =
    decode_three (a / 4) (a % 4 * 16 + b / 16) (b % 16 * 4) (b'=' ∷ []) (omega arith) (omega arith)
      (omega arith)
    ∙ prepend_two (a / 4 * 4 + (a % 4 * 16 + b / 16) / 16) a
        ((a % 4 * 16 + b / 16) % 16 * 16 + b % 16 * 4 / 4) b (some []) (omega arith) (omega arith)
b64decode-b64encode (a ∷ b ∷ c ∷ bytes) (ha, (hb, (hc, rest))) =
    decode_four (a / 4) (a % 4 * 16 + b / 16) (b % 16 * 4 + c / 64) (c % 64) (b64encode bytes)
      (omega arith) (omega arith) (omega arith) (omega arith)
    ∙ prepend_two (a / 4 * 4 + (a % 4 * 16 + b / 16) / 16) a
        ((a % 4 * 16 + b / 16) % 16 * 16 + (b % 16 * 4 + c / 64) / 4) b
        (prepend (some ((b % 16 * 4 + c / 64) % 4 * 64 + c % 64))
          (b64decode_from start (b64encode bytes)))
        (omega arith) (omega arith)
    ∙ ap
        (λ (x : ℕ).
          prepend (some a)
            (prepend (some b) (prepend (some x) (b64decode_from start (b64encode bytes)))))
        (omega arith)
    ∙ ap (λ r. prepend (some a) (prepend (some b) (prepend (some c) r)))
        (b64decode-b64encode bytes rest)

pub b64encode_ascii : (bytes : List ℕ) → All (λ c. c < 128) (b64encode bytes)
unfolding b64encode
b64encode_ascii [] = tt
b64encode_ascii (a ∷ []) =
    (b64_char_ascii (a / 4), (b64_char_ascii (a % 4 * 16), (omega arith, (omega arith, tt))))
b64encode_ascii (a ∷ b ∷ []) = (
  b64_char_ascii (a / 4),
  (b64_char_ascii (a % 4 * 16 + b / 16), (b64_char_ascii (b % 16 * 4), (omega arith, tt))),
)
b64encode_ascii (a ∷ b ∷ c ∷ bytes) = (
  b64_char_ascii (a / 4),
  (
    b64_char_ascii (a % 4 * 16 + b / 16),
    (b64_char_ascii (b % 16 * 4 + c / 64), (b64_char_ascii (c % 64), b64encode_ascii bytes)),
  ),
)
