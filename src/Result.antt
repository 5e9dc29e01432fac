-- ===== src/Result.antt =====
-- Results of operations that may raise, and the errors that the program raises of its own.
use memline.Prelude.{String, ◌≡◌, refl, Bool, true, false}

-- `StalenessError`, told apart by the messages; `not_updated` and
-- `not_deleted` are what the client's update and delete raise.
pub data Error : Type 0 where
  memory_not_found superseding_not_found would_cycle : String → Error
  already_invalidated not_invalidated : String → Error
  no_superseding_id supersedes_itself chain_too_long : Error
  invalid_disposition evidence_not_positive : Error
  protects_invalidated protects_expired : Error
  empty_reason reason_too_long days_out_of_range no_writer : Error
  not_eligible not_updated not_deleted : Error

-- An operation either raises or returns.
pub data Result {ℓ} (A : Type ℓ) : Type ℓ where
  raise : Error → Result A
  ok : A → Result A

-- `if test: raise e`
abbrev pub refuse_if : Bool → Error → Result (Unit {0})
refuse_if true e = raise e
refuse_if false e = ok tt

infixl 5 ◌>>=◌
abbrev pub ◌>>=◌ {κ ℓ} : {B : Type κ} {A : Type ℓ} → Result A → (A → Result B) → Result B
raise e >>= next = raise e
ok value >>= next = next value

-- The next statement, which a raised error skips.
infixl 5 ◌>>◌
abbrev pub ◌>>◌ {κ} : {B : Type κ} → Result (Unit {0}) → Result B → Result B
check >> rest = check >>= λ done. rest

-- A chain that returns has returned at its first operation.
pub >>=-eq-ok {κ ℓ} :
    {B : Type κ} {A : Type ℓ} (first : Result A) (next : A → Result B) {answer : B}
    → (first >>= next) ≡ ok answer
    → (value : A) × (first ≡ ok value) × (next value ≡ ok answer)
>>=-eq-ok (raise e) next returned = cc
>>=-eq-ok (ok value) next returned = (value, refl, returned)

pub refuse_if-eq-ok :
    {A : Type 0} (test : Bool) (e : Error) (k : Result A) {a : A}
    → (refuse_if test e >> k) ≡ ok a
    → (test ≡ false) × (k ≡ ok a)
refuse_if-eq-ok true e k h = cc
refuse_if-eq-ok false e k h = (refl, h)
