-- ===== src/Proxy/Grant/Shifting.antt =====
-- crates/hull-ci-proxy/src/grant.rs: an encoding and a digest to try the code with. The encoding adds 100 to
-- each byte, and the digest of a secret is the secret.
use hull_ci.Base.{
  ℕ, zero, suc, ◌+◌, ◌-◌, ◌≡◌, refl, false, some, Text, [], ◌∷◌, any, text_eq, text_eq_iff, ◌==◌,
  arith,
}
use hull_ci.Proxy.Grant.{Crypto}

abbrev pub shift : Text → Text
shift [] = []
shift (b ∷ bs) = (b + 100) ∷ shift bs

abbrev pub unshift : Text → Text
unshift [] = []
unshift (b ∷ bs) = (b - 100) ∷ unshift bs

pub unshift-shift : (bs : Text) → some (unshift (shift bs)) ≡ some bs
unshift-shift [] = refl
unshift-shift (b ∷ bs) = ground (arith, unshift-shift bs)

pub shift_no_dot : (bs : Text) → any (λ c. c == b'.') (shift bs) ≡ false
unfolding any
shift_no_dot [] = refl
shift_no_dot (b ∷ bs) = ground (arith, shift_no_dot bs)

abbrev pub shifting : Crypto
shifting = record {
  encode = shift;
  decode = λ s. some (unshift s);
  hash = λ s. s;
  ct_eq = text_eq;
  decode-encode = unshift-shift;
  encode_no_dot = shift_no_dot;
  ct_eq_iff = text_eq_iff;
}

abbrev pub fill : ℕ → ℕ → Text
fill zero b = []
fill (suc n) b = b ∷ fill n b
