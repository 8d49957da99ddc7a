-- ===== src/Proxy/Grant/Examples.antt =====
-- crates/hull-ci-proxy/src/grant.rs: two jobs with a grant each.
use hull_ci.Base.{
  ◌≡◌, refl, ◌≢◌, ◌∷◌, [], Text, text_eq, arith, text_keys, get, put, erase, keep, lit,
}
use hull_ci.Proxy.RateLimit.{default_rate, take, refill}
use hull_ci.Proxy.Grant.{
  Grant, Registry, granted, mint, authorise, authorise_record, strip_prefix, split_once,
  token_prefix, revoke, revoke_job, ids_of_job, erase_all,
}
use hull_ci.Proxy.Grant.Shifting.{shifting, fill}
use hull_ci.Proxy.Grant.Authorise.{IsAuthorised, authorise-IsAuthorised, mint-authorise}
use hull_ci.Proxy.Grant.Parse.{parse-mint_token}
use hull_ci.Proxy.Grant.Used.{Used, Reach}
use hull_ci.Proxy.Grant.Revoke.{After, revoke_job-authorise, revoke_is_final}

abbrev id_a : Text
id_a = fill 16 1

abbrev id_b : Text
id_b = fill 16 2

abbrev secret : Text
secret = fill 32 7

abbrev job_a : Text
job_a = b'a' ∷ []

abbrev job_b : Text
job_b = b'b' ∷ []

abbrev one : Registry × Text × Grant
one = mint shifting [] id_a secret [] job_a [] 100 default_rate

abbrev two : Registry × Text × Grant
two = mint shifting one.0 id_b secret [] job_b [] 100 default_rate

mint-authorise_example : (authorise shifting two.0 two.1 5).1 ≡ granted two.2
mint-authorise_example =
    mint-authorise shifting one.0 id_b secret [] job_b [] 100 5 default_rate refl refl (omega arith)
      (omega arith)

authorise-IsAuthorised_example :
    IsAuthorised shifting two.0 two.1 5 two.2 (authorise shifting two.0 two.1 5).0
authorise-IsAuthorised_example =
    authorise-IsAuthorised shifting two.0 5 two.1 two.2 mint-authorise_example

reached : Reach shifting two.0
reached =
    Reach.next (Reach.next Reach.empty (Used.mints [] id_a secret [] job_a [] 100 default_rate))
      (Used.mints one.0 id_b secret [] job_b [] 100 default_rate)

revoke_is_final_example : (authorise shifting (revoke two.0 id_b).0 two.1 5).1 ≢ granted two.2
unfolding mint
revoke_is_final_example =
    revoke_is_final shifting two.0 (revoke two.0 id_b).0 id_b two.1 secret 5 two.2 reached
      After.at_once (parse-mint_token shifting id_b secret refl refl)

other_job_lives : (authorise shifting (revoke_job two.0 job_a).0 two.1 5).1 ≡ granted two.2
unfolding mint authorise authorise_record revoke_job ids_of_job erase_all keep get put erase text_eq
    strip_prefix token_prefix split_once lit take refill
other_job_lives = refl

revoke_job-authorise_run : two.2.job_id ≢ job_a
unfolding mint
revoke_job-authorise_run =
    revoke_job-authorise shifting two.0 job_a two.1 5 two.2 reached other_job_lives
