-- ===== src/Config/Unquoting.antt =====
-- That `quote`, as aiolibdatachannel/config.py uses it, loses nothing.
use aiolibdatachannel.Prelude.{
  ℕ, ◌+◌, ◌-◌, ◌*◌, ◌/◌, ◌%◌, ◌<◌, ◌≡◌, ◌≢◌, refl, sym, ap, ◌∙◌, true, List, [], ◌∷◌, ◌++◌, arith,
  ltb, ◌==◌, if◌then◌else◌, if_cases, All,
}
use aiolibdatachannel.Config.{
  IsCharacter, Str, percent, between, is_unreserved, utf8, hex_digit, escape, quote,
}

-- A hexadecimal digit's number.
unfoldable pub hex_value : ℕ → ℕ
hex_value d = if ltb d 58 then d - 48 else d - 55

-- Percent-decoding, to bytes.
unfoldable pub unquote : Str → List ℕ
unquote [] = []
unquote (c ∷ []) = c ∷ []
unquote (c ∷ d ∷ []) = c ∷ d ∷ []
unquote (c ∷ h ∷ l ∷ cs) =
    let decoded = unquote cs in
    let plain = unquote (h ∷ l ∷ cs) in
    if c == percent then (hex_value h * 16 + hex_value l) ∷ decoded else c ∷ plain

-- `text.encode("utf-8")`.
unfoldable pub encode : Str → List ℕ
encode [] = []
encode (c ∷ cs) = utf8 c ++ encode cs

unquote-plain : (c : ℕ) (cs : Str) → c ≢ percent → unquote (c ∷ cs) ≡ c ∷ unquote cs
unfolding unquote
unquote-plain c [] h = refl
unquote-plain c (d ∷ []) h = refl
unquote-plain c (d ∷ e ∷ cs) h = ground arith

hex-byte :
    (b : ℕ) → b < 256 → hex_value (hex_digit (b / 16)) * 16 + hex_value (hex_digit (b % 16)) ≡ b
unfolding hex_value hex_digit
hex-byte b h = ground arith

unquote-escape :
    (bs : List ℕ) (t : Str) → All (λ b. b < 256) bs → unquote (escape bs ++ t) ≡ bs ++ unquote t
unfolding escape unquote
unquote-escape [] t h = refl
unquote-escape (b ∷ bs) t h = ground (arith, hex-byte b h.0, unquote-escape bs t h.1)

abbrev pub IsBytes : List ℕ → Type 0
IsBytes bs = All (λ b. b < 256) bs

pub utf8-All : (c : ℕ) → c < 1114112 → All (λ b. b < 256) (utf8 c)
unfolding utf8
utf8-All c h =
    if_cases IsBytes (ltb c 128) _ _ (λ e. (ground (arith, e), tt))
      (λ e.
        if_cases IsBytes (ltb c 2048) _ _ (λ f. (ground (arith, f), (omega arith, tt)))
          (λ f.
            if_cases IsBytes (ltb c 65536) _ _
              (λ g. (ground (arith, g), (omega arith, (omega arith, tt))))
              (λ g. (omega arith, (omega arith, (omega arith, (omega arith, tt)))))))

utf8-plain : (c : ℕ) → is_unreserved c ≡ true → (utf8 c ≡ c ∷ []) × (c ≢ percent)
unfolding utf8 is_unreserved between
utf8-plain c h = (ground (arith, h), λ e. ground (arith, h, e))

quote_first :
    (c : ℕ) (t : Str)
    → c < 1114112
    → unquote ((if is_unreserved c then c ∷ [] else escape (utf8 c)) ++ t) ≡ utf8 c ++ unquote t
quote_first c t h =
    if_cases (λ (q : Str). unquote (q ++ t) ≡ utf8 c ++ unquote t) (is_unreserved c) _ _
      (λ e.
        unquote-plain c t (utf8-plain c e).1 ∙ ap (λ bs. bs ++ unquote t) (sym (utf8-plain c e).0))
      (λ e. unquote-escape (utf8 c) t (utf8-All c h))

-- Percent-decoding what `quote` gives yields the UTF-8 bytes of the text, whatever Unicode
-- characters it has.
pub unquote-quote : (t : Str) → All IsCharacter t → unquote (quote t) ≡ encode t
unfolding quote encode unquote
unquote-quote [] h = refl
unquote-quote (c ∷ cs) h =
    quote_first c (quote cs) h.0.0 ∙ ap (λ bs. utf8 c ++ bs) (unquote-quote cs h.1)
