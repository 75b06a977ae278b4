-- ===== src/Config/Parts.antt =====
-- That the URL which IceServer.to_url of aiolibdatachannel/config.py makes can be taken apart.
use aiolibdatachannel.Prelude.{
  ℕ, ◌/◌, ◌%◌, ◌≡◌, ◌≢◌, refl, sym, ap, ◌∙◌, true, false, List, [], ◌∷◌, ◌++◌, arith, ◌==◌,
  if◌then◌else◌, if_cases, All, All-append,
}
use mathlib.Core.List.{append_assoc}
use aiolibdatachannel.Errors.{ok}
use aiolibdatachannel.Config.{
  Str, colon, at_sign, percent, before, after, between, is_unreserved, utf8, hex_digit, escape,
  quote, IceServer, has_credentials, or_empty, inlined, to_url,
}

-- A character that `quote` never gives.
abbrev pub Special : ℕ → Type 0
Special c = (c ≢ percent) × (is_unreserved c ≡ false) × ((n : ℕ) → hex_digit n ≢ c)

-- A colon or an at sign.
colon-Special : Special colon
unfolding is_unreserved between hex_digit
colon-Special = (omega arith, refl, λ n e. ground (arith, e))

at-Special : Special at_sign
unfolding is_unreserved between hex_digit
at-Special = (omega arith, refl, λ n e. ground (arith, e))

escape-All : (c : ℕ) (bs : List ℕ) → Special c → All (λ x. x ≢ c) (escape bs)
unfolding escape
escape-All c [] s = tt
escape-All c (b ∷ bs) s = (λ e. s.0 (sym e), (s.2 (b / 16), (s.2 (b % 16), escape-All c bs s)))

pub quote-All : (c : ℕ) (t : Str) → Special c → All (λ x. x ≢ c) (quote t)
unfolding quote
quote-All c [] s = tt
quote-All c (x ∷ xs) s =
    All-append (λ y. y ≢ c) (if is_unreserved x then x ∷ [] else escape (utf8 x)) (quote xs)
      (if_cases (λ (t : Str). All (λ y. y ≢ c) t) (is_unreserved x) _ _
        (λ e. (λ f. absurd (ground (arith, e, s.1, f)), tt)) (λ e. escape-All c (utf8 x) s))
      (quote-All c xs s)

before-append : (c : ℕ) (xs ys : Str) → All (λ x. x ≢ c) xs → before c (xs ++ c ∷ ys) ≡ xs
unfolding before
before-append c [] ys h = ground arith
before-append c (x ∷ xs) ys h = ground (arith, h.0, before-append c xs ys h.1)

after-append : (c : ℕ) (xs ys : Str) → All (λ x. x ≢ c) xs → after c (xs ++ c ∷ ys) ≡ ys
unfolding after
after-append c [] ys h = ground arith
after-append c (x ∷ xs) ys h = ground (arith, h.0, after-append c xs ys h.1)

before-All : (c : ℕ) (xs : Str) → All (λ x. x ≢ c) (before c xs)
unfolding before
before-All c [] = tt
before-All c (x ∷ xs) =
    if_cases (λ (t : Str). All (λ y. y ≢ c) t) (x == c) _ _ (λ e. tt)
      (λ e. (λ f. absurd (ground (arith, e, f)), before-All c xs))

-- The parts of a URL with credentials: its scheme, the user, the password and what follows.
abbrev pub HasParts : Str → Str → Str → Str → Str → Type 0
HasParts scheme user cred remainder url =
    let rest = after colon url in
    let creds = before at_sign rest in
    (before colon url ≡ scheme)
    × (before colon creds ≡ user)
    × (after colon creds ≡ cred)
    × (after at_sign rest ≡ remainder)

inlined-HasParts :
    (scheme user cred remainder : Str)
    → All (λ x. x ≢ colon) scheme
    → All (λ x. x ≢ colon) user
    → All (λ x. x ≢ at_sign) user
    → All (λ x. x ≢ at_sign) cred
    → HasParts scheme user cred remainder (inlined scheme user cred remainder)
unfolding inlined
inlined-HasParts scheme user cred remainder s u u' c =
    let tail = user ++ colon ∷ (cred ++ at_sign ∷ remainder) in
    let both : tail ≡ (user ++ colon ∷ cred) ++ at_sign ∷ remainder =
      sym (append_assoc user (colon ∷ cred) (at_sign ∷ remainder)) in
    let clean = All-append (λ x. x ≢ at_sign) user (colon ∷ cred) u' (omega arith, c) in
    let rest : after colon (scheme ++ colon ∷ tail)
        ≡ (user ++ colon ∷ cred) ++ at_sign ∷ remainder =
      after-append colon scheme tail s ∙ both in
    let creds : before at_sign (after colon (scheme ++ colon ∷ tail)) ≡ user ++ colon ∷ cred =
      ap (before at_sign) rest ∙ before-append at_sign (user ++ colon ∷ cred) remainder clean in
    (
      before-append colon scheme tail s,
      ap (before colon) creds ∙ before-append colon user cred u,
      ap (after colon) creds ∙ after-append colon user cred u,
      ap (after at_sign) rest ∙ after-append at_sign (user ++ colon ∷ cred) remainder clean,
    )

to_url-inlined :
    (s : IceServer) (url : Str)
    → has_credentials s ≡ true
    → to_url s ≡ ok url
    → inlined
        (before colon s.url)
        (quote (or_empty s.username))
        (quote (or_empty s.credential))
        (after colon s.url)
      ≡ url
unfolding to_url
to_url-inlined s url h e = ground (arith, h, e)

-- With credentials, the URL that `to_url` returns, if it raises nothing, is taken apart at its
-- first colon, at the first at sign after it and at the first colon between them: these give the
-- scheme of the server's URL, the quoted user, the quoted credential and what follows the scheme,
-- whatever characters the user and the credential have.
pub to_url-HasParts :
    (s : IceServer) (url : Str)
    → has_credentials s ≡ true
    → to_url s ≡ ok url
    → HasParts
        (before colon s.url)
        (quote (or_empty s.username))
        (quote (or_empty s.credential))
        (after colon s.url)
        url
to_url-HasParts s url h e =
    let user = quote (or_empty s.username) in
    let cred = quote (or_empty s.credential) in
    rw (← to_url-inlined s url h e) (
      inlined-HasParts (before colon s.url) user cred (after colon s.url) (before-All colon s.url)
        (quote-All colon (or_empty s.username) colon-Special)
        (quote-All at_sign (or_empty s.username) at-Special)
        (quote-All at_sign (or_empty s.credential) at-Special))
