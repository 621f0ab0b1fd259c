-- ===== src/Wire/Step.antt =====
-- src-tauri/src/proxy.rs: how its protocol code goes on. A step changes the state of a connection
-- and either gives a value or ends the connection, as `?` and `return Err` do.
use proxy_load.Base.{Bool, true, false}

pub data Reply (S A : Type 0) : Type 0 where
  got : A → S → Reply S A
  gone : S → Reply S A

abbrev pub and_then_got : {S A B : Type 0} → Reply S A → (A → S → Reply S B) → Reply S B
and_then_got (got a s) f = f a s
and_then_got (gone s) f = gone s

infixl 5 ◌>>=◌ ◌>>◌
abbrev pub ◌>>=◌ : {S A B : Type 0} → (S → Reply S A) → (A → S → Reply S B) → S → Reply S B
◌>>=◌ m f s = and_then_got (m s) f

abbrev pub ◌>>◌ : {S B : Type 0} → (S → Reply S (Unit {0})) → (S → Reply S B) → S → Reply S B
◌>>◌ m k = m >>= λ _. k

abbrev pub give : {S A : Type 0} → A → S → Reply S A
give = got

abbrev pub guard : {S : Type 0} → Bool → S → Reply S (Unit {0})
guard true = got tt
guard false = gone
