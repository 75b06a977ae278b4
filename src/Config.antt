-- ===== src/Config.antt =====
-- aiolibdatachannel/config.py: the servers and the configuration of a connection. A string is the
-- list of its code points.
pub mod Parts
pub mod Recovers
pub mod Unquoting
use aiolibdatachannel.Prelude.{
  ◌<◌, ◌⊎◌, ℕ, ◌+◌, ◌/◌, ◌%◌, Bool, true, false, ◌&&◌, ◌||◌, not, List, [], ◌∷◌, ◌++◌, Option, none,
  some, ltb, leb, ◌==◌, if◌then◌else◌,
}
use aiolibdatachannel.Errors.{Result, ok, raises, value_error}
use aiolibdatachannel.Native.{PcArgs}

abbrev pub Str : Type 0
Str = List ℕ

abbrev pub colon : ℕ
colon = 58

abbrev pub slash : ℕ
slash = 47

abbrev pub at_sign : ℕ
at_sign = 64

abbrev pub percent : ℕ
percent = 37

-- `text.partition(c)`: what stands in front of the first `c`, and what follows it; with no `c`,
-- everything and nothing.
unfoldable pub before : ℕ → Str → Str
before c [] = []
before c (x ∷ xs) = let rest = before c xs in if x == c then [] else x ∷ rest

unfoldable pub after : ℕ → Str → Str
after c [] = []
after c (x ∷ xs) = let rest = after c xs in if x == c then xs else rest

-- `c in text`.
unfoldable pub contains : ℕ → Str → Bool
contains c [] = false
contains c (x ∷ xs) = x == c || contains c xs

between : ℕ → ℕ → ℕ → Bool
between low high c = leb low c && leb c high

-- The characters that `quote` always keeps: letters, digits and `_.-~`.
unfoldable pub is_unreserved : ℕ → Bool
unfolding between
is_unreserved c =
    between 48 57 c
    || between 65 90 c
    || between 97 122 c
    || c == 95
    || c == 46
    || c == 45
    || c == 126

-- A Unicode character: a code point that is no surrogate. `quote` raises UnicodeEncodeError on a
-- surrogate, which the model does not.
abbrev pub IsCharacter : ℕ → Type 0
IsCharacter c = (c < 1114112) × ((c < 55296) ⊎ (57343 < c))

-- The UTF-8 bytes of a code point.
unfoldable pub utf8 : ℕ → List ℕ
utf8 c =
    if ltb c 128
    then c ∷ []
    else if ltb c 2048
    then (192 + c / 64) ∷ (128 + c % 64) ∷ []
    else if ltb c 65536
    then (224 + c / 4096) ∷ (128 + c / 64 % 64) ∷ (128 + c % 64) ∷ []
    else (240 + c / 262144) ∷ (128 + c / 4096 % 64) ∷ (128 + c / 64 % 64) ∷ (128 + c % 64) ∷ []

-- An upper case hexadecimal digit.
unfoldable pub hex_digit : ℕ → ℕ
hex_digit n = if ltb n 10 then 48 + n else 55 + n

unfoldable pub escape : List ℕ → Str
escape [] = []
escape (b ∷ bs) = percent ∷ hex_digit (b / 16) ∷ hex_digit (b % 16) ∷ escape bs

-- `quote(text, safe="")`.
unfoldable pub quote : Str → Str
quote [] = []
quote (c ∷ cs) = (if is_unreserved c then c ∷ [] else escape (utf8 c)) ++ quote cs

pub record IceServer : Type 0 where
  pub url : Str
  pub username : Option Str
  pub credential : Option Str

abbrev pub has_credentials : IceServer → Bool
has_credentials s = is_given s.username || is_given s.credential
  where
    is_given : Option Str → Bool
    is_given none = false
    is_given (some t) = true

-- `text or ""`.
abbrev pub or_empty : Option Str → Str
or_empty none = []
or_empty (some t) = t

abbrev is_empty : Str → Bool
is_empty [] = true
is_empty (c ∷ cs) = false

inlined : Str → Str → Str → Str → Str
inlined scheme user cred remainder =
    scheme ++ colon ∷ (user ++ colon ∷ (cred ++ at_sign ∷ remainder))

unfoldable pub to_url : IceServer → Result Str
unfolding inlined
to_url s =
    if not (has_credentials s)
    then ok s.url
    else let remainder = after colon s.url in
      if is_empty remainder
      then raises value_error
      else if contains at_sign (before slash remainder)
      then raises value_error
      else ok (
          inlined (before colon s.url) (quote (or_empty s.username)) (quote (or_empty s.credential))
            remainder)

-- An entry of `ice_servers`: a URL, or a server.
pub data IceServerLike : Type 0 where
  raw : Str → IceServerLike
  server : IceServer → IceServerLike

-- The enumerations are their numbers.
pub record RtcConfiguration : Type 0 where
  pub ice_servers : List IceServerLike
  pub port_range_begin : ℕ
  pub port_range_end : ℕ
  pub mtu : ℕ
  pub max_message_size : ℕ
  pub enable_ice_tcp : Bool
  pub disable_auto_negotiation : Bool
  pub certificate_type : ℕ
  pub ice_transport_policy : ℕ

server_url : IceServerLike → Result Str
server_url (raw url) = ok url
server_url (server s) = to_url s

with_url : Result Str → Result (List Str) → Result (List Str)
with_url (raises e) rest = raises e
with_url (ok url) (raises e) = raises e
with_url (ok url) (ok urls) = ok (url ∷ urls)

-- `[... for entry in cfg.ice_servers]`: the first entry that raises ends it.
unfoldable pub server_urls : List IceServerLike → Result (List Str)
unfolding server_url with_url
server_urls [] = ok []
server_urls (s ∷ ss) = with_url (server_url s) (server_urls ss)

with_urls : RtcConfiguration → Result (List Str) → Result PcArgs
with_urls cfg (raises e) = raises e
with_urls cfg (ok urls) = ok (record {
  ice_servers = urls;
  port_range_begin = cfg.port_range_begin;
  port_range_end = cfg.port_range_end;
  mtu = cfg.mtu;
  max_message_size = cfg.max_message_size;
  enable_ice_tcp = cfg.enable_ice_tcp;
  disable_auto_negotiation = cfg.disable_auto_negotiation;
  certificate_type = cfg.certificate_type;
  ice_transport_policy = cfg.ice_transport_policy;
})

-- The arguments that `PeerConnection.__init__` passes on.
unfoldable pub peer_args : RtcConfiguration → Result PcArgs
unfolding with_urls
peer_args cfg = with_urls cfg (server_urls cfg.ice_servers)
