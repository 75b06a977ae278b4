-- ===== src/Config/Recovers.antt =====
-- That what IceServer.to_url of aiolibdatachannel/config.py puts into a URL can be had back from it.
use aiolibdatachannel.Prelude.{◌≡◌, ◌≢◌, refl, ap, ◌∙◌, true, arith, subst, sym, All}
use aiolibdatachannel.Errors.{ok}
use aiolibdatachannel.Config.{
  Str, IsCharacter, colon, at_sign, slash, before, after, between, is_unreserved, hex_digit,
  IceServer, has_credentials, or_empty, to_url,
}
use aiolibdatachannel.Config.Unquoting.{unquote, encode, unquote-quote}
use aiolibdatachannel.Config.Parts.{Special, quote-All, to_url-HasParts}

slash-Special : Special slash
unfolding is_unreserved between hex_digit
slash-Special = (omega arith, refl, λ n e. ground (arith, e))

-- The username and the credential, of any Unicode characters, come back: from the URL that `to_url`
-- returns for a server with credentials, if it raises nothing, one has the scheme before the first
-- colon; between it and the first at sign after it two parts, with a colon between them, of which the
-- first percent-decodes to the UTF-8 bytes of the username and the second to those of the credential
-- (of nothing, where one is not given); and behind the at sign what followed the scheme. Neither part
-- has a slash, at which a parser ends the authority.
pub to_url-recovers :
    (s : IceServer) (url : Str)
    → has_credentials s ≡ true
    → to_url s ≡ ok url
    → All IsCharacter (or_empty s.username)
    → All IsCharacter (or_empty s.credential)
    → let rest = after colon url in
      let creds = before at_sign rest in
      (before colon url ≡ before colon s.url)
      × (unquote (before colon creds) ≡ encode (or_empty s.username))
      × (unquote (after colon creds) ≡ encode (or_empty s.credential))
      × (after at_sign rest ≡ after colon s.url)
      × All (λ x. x ≢ slash) (before colon creds)
      × All (λ x. x ≢ slash) (after colon creds)
to_url-recovers s url h e u c =
    let (scheme, user, cred, remainder) = to_url-HasParts s url h e in
    (
      scheme,
      ap unquote user ∙ unquote-quote (or_empty s.username) u,
      ap unquote cred ∙ unquote-quote (or_empty s.credential) c,
      remainder,
      subst (All (λ x. x ≢ slash)) (sym user) (quote-All slash (or_empty s.username) slash-Special),
      subst (All (λ x. x ≢ slash)) (sym cred)
          (quote-All slash (or_empty s.credential) slash-Special),
    )
