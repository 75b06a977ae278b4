-- ===== src/Examples/Configs.antt =====
-- Configurations on small inputs.
use aiolibdatachannel.Prelude.{none, All, ◌≢◌, ◌≡◌, inl, arith, refl, [], ◌∷◌, some}
use aiolibdatachannel.Config.{
  Str, IceServer, quote, before, after, contains, to_url, colon, at_sign, slash, is_unreserved,
  utf8, escape, hex_digit,
}
use aiolibdatachannel.Config.Unquoting.{unquote, encode}
use aiolibdatachannel.Config.Recovers.{to_url-recovers}
use aiolibdatachannel.Config.Parts.{HasParts, to_url-HasParts}

-- "t:h", with the user "a:" and the credential "@".
abbrev turn_server : IceServer
turn_server = record {
  url = 116 ∷ 58 ∷ 104 ∷ [];
  username = some (97 ∷ 58 ∷ []);
  credential = some (64 ∷ []);
}

-- "t:a%3A:%40@h".
abbrev turn_url : Str
turn_url = 116 ∷ 58 ∷ 97 ∷ 37 ∷ 51 ∷ 65 ∷ 58 ∷ 37 ∷ 52 ∷ 48 ∷ 64 ∷ 104 ∷ []

to_url-HasParts_example :
    HasParts (116 ∷ []) (97 ∷ 37 ∷ 51 ∷ 65 ∷ []) (37 ∷ 52 ∷ 48 ∷ []) (104 ∷ []) turn_url
unfolding to_url after contains before quote is_unreserved escape utf8 hex_digit
to_url-HasParts_example = to_url-HasParts turn_server turn_url refl refl

-- "t:h", with the user of "a:", a letter of two bytes and a sign of three, and no credential.
abbrev named_server : IceServer
named_server = record {
  url = 116 ∷ 58 ∷ 104 ∷ [];
  username = some (97 ∷ 58 ∷ 233 ∷ 8364 ∷ []);
  credential = none;
}

abbrev named_url : Str
named_url =
    116 ∷ 58 ∷ 97 ∷ 37 ∷ 51 ∷ 65 ∷ 37 ∷ 67 ∷ 51 ∷ 37 ∷ 65 ∷ 57 ∷ 37 ∷ 69 ∷ 50 ∷ 37 ∷ 56 ∷ 50 ∷ 37
    ∷ 65 ∷ 67 ∷ 58 ∷ 64 ∷ 104 ∷ []

to_url-recovers_example :
    let rest = after colon named_url in
    let creds = before at_sign rest in
    (before colon named_url ≡ 116 ∷ [])
    × (unquote (before colon creds) ≡ 97 ∷ 58 ∷ 195 ∷ 169 ∷ 226 ∷ 130 ∷ 172 ∷ [])
    × (unquote (after colon creds) ≡ [])
    × (after at_sign rest ≡ 104 ∷ [])
    × All (λ x. x ≢ slash) (before colon creds)
    × All (λ x. x ≢ slash) (after colon creds)
unfolding to_url after contains before quote is_unreserved escape utf8 hex_digit encode
to_url-recovers_example =
    to_url-recovers named_server named_url refl refl
      (
        (omega arith, inl (omega arith)),
        (
          (omega arith, inl (omega arith)),
          ((omega arith, inl (omega arith)), ((omega arith, inl (omega arith)), tt)),
        ),
      )
      tt
