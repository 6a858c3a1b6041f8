-- ===== src/Auth/Toy.antt =====
-- An instance of the external code, with which the theorems of Auth are applied to inputs. Its
-- codecs and its hash are simple functions that meet the laws; they are no cryptography.
use singboxconfig.Prelude.{
  ℕ, zero, suc, ◌+◌, ◌-◌, ◌*◌, ◌/◌, Str, false, ◌≡◌, refl, ap, [], ◌∷◌, ◌++◌, map, Option, none,
  some, arith, any, length, equal, equal_iff,
}
use singboxconfig.Prelude.Int.{ℤ, pos, negsuc}
use singboxconfig.Strings.{trim_space, is_empty}
use singboxconfig.Strings.Split.{IsFree}
use singboxconfig.Entity.{Time}
use singboxconfig.Auth.Config.{Claims, External, second}
use singboxconfig.Auth.Token.Sessions.{TokenLaws}
use singboxconfig.Auth.RoundTrip.{TimeLaws}
use singboxconfig.Auth.Reset.{HashLaws}

abbrev take : ℕ → Str → Str
take zero s = []
take (suc n) [] = []
take (suc n) (c ∷ s) = c ∷ take n s

abbrev drop : ℕ → Str → Str
drop zero s = s
drop (suc n) [] = []
drop (suc n) (c ∷ s) = drop n s

take-append : (a b : Str) → take (length a) (a ++ b) ≡ a
take-append [] b = refl
take-append (c ∷ a) b = ap (◌∷◌ c) (take-append a b)

drop-append : (a b : Str) → drop (length a) (a ++ b) ≡ b
drop-append [] b = refl
drop-append (c ∷ a) b = drop-append a b

abbrev shift : Str → Str
shift s = map (λ c. c + 47) s

abbrev unshift : Str → Str
unshift s = map (λ c. c - 47) s

unshift-shift : (s : Str) → unshift (shift s) ≡ s
unshift-shift [] = refl
unshift-shift (c ∷ s) = rw (unshift-shift s) (ap (λ d. d ∷ s) (omega arith))

shift-IsFree : (s : Str) → IsFree b'.' (shift s)
unfolding any
shift-IsFree [] = refl
shift-IsFree (c ∷ s) = ground (arith, shift-IsFree s)

abbrev write : ℤ → Str → Str
write (pos n) s = 0 ∷ n ∷ s
write (negsuc n) s = 1 ∷ n ∷ s

abbrev read : ℕ → ℕ → ℤ
read zero n = pos n
read (suc m) n = negsuc n

abbrev write_claims : Claims → Str
write_claims c = write c.expires_at_unix (
    write c.issued_at_unix
      (length c.subject ∷ length c.session_version ∷ (c.subject ++ (c.session_version ++ c.type))))

abbrev read_claims : Str → Option Claims
read_claims (a ∷ b ∷ c ∷ d ∷ l ∷ m ∷ s) = some (record {
  subject = take l s;
  expires_at_unix = read a b;
  issued_at_unix = read c d;
  session_version = take m (drop l s);
  type = drop m (drop l s);
})
read_claims _ = none

claims_of : ℤ → ℤ → Str → Str → Str → Claims
claims_of e i subject version type = record {
  subject = subject;
  expires_at_unix = e;
  issued_at_unix = i;
  session_version = version;
  type = type;
}

read_parts :
    (e i : ℤ) (subject version type : Str)
    → read_claims
        (write e (write i (length subject ∷ length version ∷ (subject ++ (version ++ type)))))
      ≡ some (claims_of e i subject version type)
unfolding claims_of
read_parts (pos e) (pos i) a b c = simp (take-append, drop-append)
read_parts (pos e) (negsuc i) a b c = simp (take-append, drop-append)
read_parts (negsuc e) (pos i) a b c = simp (take-append, drop-append)
read_parts (negsuc e) (negsuc i) a b c = simp (take-append, drop-append)

read-write_claims : (c : Claims) → read_claims (write_claims c) ≡ some c
unfolding claims_of
read-write_claims c =
    read_parts c.expires_at_unix c.issued_at_unix c.subject c.session_version c.type

abbrev write_time : Time → Str
write_time t = b'T' ∷ (t / second) ∷ []

abbrev read_time : Str → Option Time
read_time (c ∷ s ∷ []) = some (s * second)
read_time _ = none

write_time-shown : (t : Time) → is_empty (trim_space (write_time t)) ≡ false
unfolding trim_space
write_time-shown t = ground arith

abbrev pub toy : External
toy = record {
  generate_from_password = λ salt password. some (b'#' ∷ password);
  compare_hash_and_password = λ hash password. equal hash (b'#' ∷ password);
  hmac_sha256 = λ key message. key ++ message;
  base64_encode = shift;
  base64_decode = λ s. some (unshift s);
  marshal_claims = write_claims;
  unmarshal_claims = read_claims;
  format_time = write_time;
  parse_time = read_time;
}

pub toy_tokens : TokenLaws toy
toy_tokens = record {
  decode-encode = λ s. ap some (unshift-shift s);
  encode-IsFree = shift-IsFree;
  unmarshal-marshal = read-write_claims;
}

pub toy_times : TimeLaws toy
toy_times = record { parse-format = λ t h. refl; format_shown = write_time-shown }

pub toy_hashes : HashLaws toy
toy_hashes = record {
  compare-generate = λ salt password hash h. (equal_iff hash (b'#' ∷ password)).1 (ground arith);
}
