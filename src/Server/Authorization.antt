-- ===== src/Server/Authorization.antt =====
-- src/server/authorization.cpp: logging in and registering, over the answers of sqlite and bcrypt.
-- sqlite3 and the bundled bcrypt are not modelled: what their calls answer is an argument.
use cpp_tchat.Prelude.{Bool, not, Option, none, some, [], ◌∷◌, ◌==◌, Bytes, if◌then◌else◌}

pub data RegisterClientStatus : Type 0 where
  unable_to_open_database username_exists insert_failed client_registered unknown_error :
      RegisterClientStatus

pub data VerifyClientStatus : Type 0 where
  exec_failed user_not_found not_authorized authorized : VerifyClientStatus

-- `sqlite3_step` on an INSERT: SQLITE_DONE, SQLITE_CONSTRAINT with or without its extension, others.
pub data StepResult : Type 0 where
  done constraint step_failed : StepResult

-- The database as the two functions see it. `row` is what the query for a name gives: no row, or its
-- text, which may be null.
pub record Database : Type 0 where
  pub opens : Bool
  pub prepares : Bool
  pub row : Bytes → Option (Option Bytes)
  pub insert : Bytes → Bytes → StepResult

-- `bcrypt::validatePassword` and `bcrypt::generateHash`.
pub record Bcrypt : Type 0 where
  pub validate_password : Bytes → Bytes → Bool
  pub generate_hash : Bytes → Bytes

-- `username.c_str()` bound with length -1: the name ends at its first zero byte.
unfoldable pub c_str : Bytes → Bytes
c_str [] = []
c_str (b ∷ bs) = let rest = b ∷ c_str bs in if b == 0 then [] else rest

-- `result`, which stays empty at a null text.
abbrev hash_text : Option Bytes → Bytes
hash_text none = []
hash_text (some text) = text

unfoldable pub verify_client : Database → Bcrypt → Bytes → Bytes → VerifyClientStatus
verify_client db bcrypt username password =
    if not db.prepares then exec_failed else elim (db.row (c_str username)) [
      | none ↦ user_not_found
      | some text ↦
          if bcrypt.validate_password password (hash_text text) then authorized else not_authorized
    ]

abbrev register_status : StepResult → RegisterClientStatus
register_status done = client_registered
register_status constraint = username_exists
register_status step_failed = insert_failed

unfoldable pub register_client : Database → Bcrypt → Bytes → Bytes → RegisterClientStatus
register_client db bcrypt username password =
    if not db.opens
    then unable_to_open_database
    else if db.prepares
    then register_status (db.insert (c_str username) (c_str (bcrypt.generate_hash password)))
    else unknown_error
