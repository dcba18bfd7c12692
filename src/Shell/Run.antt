-- ===== src/Shell/Run.antt =====
-- What a function of the shell in 2/ comes to.

-- It returns, or it follows `NULL` or reads outside an array. `out_of_fuel` is the model's own.
pub data Run (A : Type 0) : Type 0 where
  ok : A → Run A
  crash : Run A
  out_of_fuel : Run A

infixl 5 ◌>>=◌
abbrev pub ◌>>=◌ : {A B : Type 0} → Run A → (A → Run B) → Run B
ok a >>= f = f a
crash >>= f = crash
out_of_fuel >>= f = out_of_fuel
