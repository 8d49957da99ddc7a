-- ===== src/Proxy/Grant/Parse.antt =====
-- crates/hull-ci-proxy/src/grant.rs: a minted token is read back.
use hull_ci.Base.{
  ◌≡◌, refl, false, [], ◌∷◌, ◌++◌, some, Text, lit, any, length, ◌==◌, arith, ap, ◌∙◌,
}
use hull_ci.Proxy.Grant.{
  Crypto, id_len, secret_len, token_prefix, strip_prefix, split_once, before_dot, mint_token, parse,
  parse_body, parse_parts, parse_id, parse_secret,
}

pub strip_prefix-append : (p s : Text) → strip_prefix p (p ++ s) ≡ some s
unfolding strip_prefix
strip_prefix-append [] s = refl
strip_prefix-append (c ∷ p) s = ground (arith, strip_prefix-append p s)

split_once-append :
    (a b : Text) → any (λ c. c == b'.') a ≡ false → split_once (a ++ b'.' ∷ b) ≡ some (a, b)
unfolding split_once any before_dot
split_once-append [] b h = ground arith
split_once-append (c ∷ a) b h = ground (arith, split_once-append a b)

parse_id-minted :
    (c : Crypto) (id secret : Text)
    → length id ≡ id_len
    → length secret ≡ secret_len
    → parse_id c (some id) (c.encode secret) ≡ some (id, c.hash secret)
unfolding parse_id
parse_id-minted c id secret h k = rw (h, c.decode-encode secret, parse_secret, k) refl

parse_body-minted :
    (c : Crypto) (id secret : Text)
    → length id ≡ id_len
    → length secret ≡ secret_len
    → parse_body c (some (c.encode id ++ b'.' ∷ c.encode secret)) ≡ some (id, c.hash secret)
unfolding parse_body parse_parts
parse_body-minted c id secret h k =
    ap (parse_parts c) (split_once-append (c.encode id) (c.encode secret) (c.encode_no_dot id))
    ∙ ap (λ o. parse_id c o (c.encode secret)) (c.decode-encode id)
    ∙ parse_id-minted c id secret h k

-- A token that is minted with an id and a secret of the right lengths is read back as the id and the
-- digest of the secret.
pub parse-mint_token :
    (c : Crypto) (id secret : Text)
    → length id ≡ id_len
    → length secret ≡ secret_len
    → parse c (mint_token c id secret) ≡ some (id, c.hash secret)
unfolding parse mint_token token_prefix lit
parse-mint_token c id secret h k =
    ap (parse_body c) (strip_prefix-append token_prefix (c.encode id ++ b'.' ∷ c.encode secret))
    ∙ parse_body-minted c id secret h k
