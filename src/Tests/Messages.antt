-- ===== src/Tests/Messages.antt =====
-- Runs of server/xntlm/xntlm.c.
use mathlib.Core.Path.{subst}
use evolution_exchange.Prelude.{
  ℕ, ◌+◌, ◌<◌, true, none, some, [], ◌∷◌, ◌++◌, length, Bytes, codes, ◌≡◌, ◌⊎◌, refl, arith, ap,
  sym,
}
use evolution_exchange.Outcome.{Outcome, ok, failed, fault}
use evolution_exchange.Ntlm.{
  Challenge, get_shorty, parse_challenge, copy_nonce, read_fields, read_field, strip_dup,
  strip_from,
}
use evolution_exchange.Ntlm.Parsing.{
  MeetsOdd, here, later, HasOddField, parse_challenge-ok, parse_challenge-fault,
}
use evolution_exchange.Ntlm.Keys.{IsOdd, upper_bits, all_bits, setup_schedule-key}
use evolution_exchange.Ntlm.Hash.{setup_schedule, lanmanager_hash, nt_hash, calc_response}
use evolution_exchange.Ntlm.Authenticate.{authenticate, read_string}
use evolution_exchange.Ntlm.Responses.{AreSized, authenticate-read_string}
use evolution_exchange.Outcome.{◌>>=◌}
use evolution_exchange.Prelude.{All, if◌then◌else◌, leb, ◌&&◌, ◌-◌}

-- The fixed part of a challenge whose fields are `n` bytes at 48.
abbrev base : ℕ → Bytes
base n =
    codes "NTLMSSP"
    ++ 0 ∷ 2 ∷ 0 ∷ 0 ∷ 0 ∷ 0 ∷ 0 ∷ 0 ∷ 0 ∷ 0 ∷ 0 ∷ 0 ∷ 0 ∷ 0 ∷ 0 ∷ 0 ∷ 0 ∷ 1 ∷ 2 ∷ 3 ∷ 4 ∷ 5 ∷ 6 ∷ 7
      ∷ 8 ∷ 0 ∷ 0 ∷ 0 ∷ 0 ∷ 0 ∷ 0 ∷ 0 ∷ 0 ∷ n ∷ 0 ∷ n ∷ 0 ∷ 48 ∷ 0 ∷ 0 ∷ 0 ∷ []

abbrev even_challenge : Bytes
even_challenge = base 8 ++ 2 ∷ 0 ∷ 4 ∷ 0 ∷ 65 ∷ 0 ∷ 66 ∷ 0 ∷ []

abbrev odd_challenge : Bytes
odd_challenge = base 7 ++ 2 ∷ 0 ∷ 3 ∷ 0 ∷ 65 ∷ 0 ∷ 66 ∷ []

parse_test :
    parse_challenge true true true even_challenge 56
    ≡ ok (record {
      nonce = some (1 ∷ 2 ∷ 3 ∷ 4 ∷ 5 ∷ 6 ∷ 7 ∷ 8 ∷ []);
      nt_domain = some (65 ∷ 66 ∷ []);
      w2k_domain = none;
    })
unfolding parse_challenge copy_nonce read_fields read_field strip_dup strip_from get_shorty
parse_test = refl

odd : HasOddField true true odd_challenge 55
unfolding get_shorty
odd = (
  48,
  record {
    held = omega arith;
    long = omega arith;
    offset = refl;
    dlen = 7;
    field = refl;
    inside = omega arith;
  },
  here 2 3 (omega arith) refl refl (omega arith) refl refl,
)

odd_length_example : parse_challenge true true true odd_challenge 55 ≡ fault
odd_length_example = parse_challenge-fault true true true odd_challenge 55 odd

abbrev value : Outcome ℕ → ℕ
value (ok n) = n
value _ = 0

ended : {chall : Bytes} {len : ℕ} (off : ℕ) → MeetsOdd true true chall len off → off < len
ended off (here type dlen a t d g w e) = omega arith
ended off (later type dlen a t d g m) = omega arith

even_fields : ¬ MeetsOdd true true even_challenge 56 48
unfolding get_shorty
even_fields (here type dlen a t d g w e) = let four : 4 ≡ dlen = ap value d in absurd (omega arith)
even_fields (later type dlen a t d g m) =
    let four : 4 ≡ dlen = ap value d in let left = ended (48 + 4 + dlen) m in absurd (omega arith)

even : ¬ HasOddField true true even_challenge 56
unfolding get_shorty
even (off, h, m) =
    let start : 48 ≡ off = ap value h.offset in
    even_fields (subst (λ o. MeetsOdd true true even_challenge 56 o) (sym start) m)

even_length_example :
    (parse_challenge true true true even_challenge 56 ≡ failed)
    ⊎ ((c : Challenge) × parse_challenge true true true even_challenge 56 ≡ ok c)
even_length_example = parse_challenge-ok true true true even_challenge 56 (omega arith) even

abbrev sevens : Bytes
sevens = 1 ∷ 2 ∷ 3 ∷ 4 ∷ 5 ∷ 6 ∷ 7 ∷ []

des_key_example :
    (k : Bytes) × (setup_schedule sevens ≡ ok k)
    × (length k ≡ 8)
    × All IsOdd k
    × (upper_bits k 0 ≡ all_bits sevens 0)
des_key_example = setup_schedule-key sevens (omega arith) (
  omega arith,
  (omega arith, (omega arith, (omega arith, (omega arith, (omega arith, (omega arith, tt)))))),
)

-- A cipher that does little, to run the model with.
abbrev cipher : Bytes → Bytes → Bytes
cipher ks b = b

sized : AreSized cipher
sized = record { block = λ ks b h. h }

abbrev key_of : Bytes → Bytes
key_of k = k

abbrev upper : ℕ → ℕ
upper c = if leb 97 c && leb c 122 then c - 32 else c

answer_example :
    (message lm_resp nt_resp : Bytes) × (authenticate key_of cipher upper
        (codes "12345678")
        (codes "DOM")
        (codes "joe")
        (codes "secret")
        none
      ≡ ok message)
    × ((lanmanager_hash key_of cipher upper (codes "secret") >>= λ k.
          calc_response key_of cipher upper k (codes "12345678"))
        ≡ ok lm_resp)
    × (calc_response key_of cipher upper (nt_hash (codes "secret")) (codes "12345678") ≡ ok nt_resp)
    × (read_string message 28 ≡ ok (codes "DOM"))
    × (read_string message 36 ≡ ok (codes "joe"))
    × (read_string message 44 ≡ ok [])
    × (read_string message 12 ≡ ok lm_resp)
    × (read_string message 20 ≡ ok nt_resp)
answer_example =
    authenticate-read_string key_of cipher upper sized (codes "12345678") (codes "DOM")
      (codes "joe") (codes "secret") none (omega arith) (omega arith)
