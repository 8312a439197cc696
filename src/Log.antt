-- ===== src/Log.antt =====
-- log/: entries, handlers and loggers.
--
-- What a handler does to the outside (files, terminals, other goroutines) is a change of a state `W`
-- that the model does not look into: a handler is the record of its four methods over that state.
-- An error is its text; `none` is `nil`. A `Data` value is kept as it is, at a type `D`.
pub mod Async
pub mod Combined
pub mod Logger
pub mod Stream
use golly.Base.{ℕ, Bool, Option, Bytes}

pub record Entry (D : Type 0) : Type 0 where
  pub context : Bytes
  pub payload : D
  pub is_error : Bool
  pub file : Bytes
  pub line : ℕ
  pub message : Bytes
  pub stacktrace : Bytes
  pub timestamp : ℕ

abbrev pub Error : Type 0
Error = Bytes

-- `Handler`. `Async` has one answer for the life of a handler, as in every handler of the package.
pub record Handler (D W : Type 0) : Type 0 where
  pub async : Bool
  pub close : W → Option Error × W
  pub flush : W → Option Error × W
  pub log : Entry D → W → Option Error × W
