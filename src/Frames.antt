-- ===== src/Frames.antt =====
-- src/frames.rs: a sample as the signal handler takes it (`UnresolvedFrames`), with the equality and
-- the hash under which samples are counted. Frames come from an unwinder, which is a parameter.
pub mod Equal
pub mod Symbol
pub mod Compare
pub mod Handler
pub mod Resolve
mod Tests
use strict_pprof_rs.Base.{
  ℕ, zero, suc, ◌+◌, ◌-◌, ◌≡◌, Bool, true, false, List, [], ◌∷◌, ◌++◌, map, Run, returns, panics,
  ◌==◌, leb, if◌then◌else◌, length, drop, replicate, Option, ◌&&◌, ◌||◌, not,
}

-- `MAX_DEPTH` without the depth features, and `MAX_THREAD_NAME`.
abbrev pub max_depth : ℕ
max_depth = 128

abbrev pub max_thread_name : ℕ
max_thread_name = 16

-- What a `backtrace::Symbol` tells, each by its accessor.
pub record RawSymbol : Type 0 where
  pub name : Option (List ℕ)
  pub addr : Option ℕ
  pub lineno : Option ℕ
  pub filename : Option (List ℕ)

-- The `Frame` of the unwinder in use, with the three methods of the trait.
pub record Backend : Type 1 where
  pub Frame : Type 0
  pub ip : Frame → ℕ
  pub symbol_address : Frame → ℕ
  pub resolve_symbol : Frame → List RawSymbol

pub record UnresolvedFrames (Frame : Type 0) : Type 0 where
  pub frames : List Frame
  pub thread_name : List ℕ
  pub thread_name_length : ℕ
  pub thread_id : ℕ
  pub sample_timestamp : ℕ

-- `Default`, at the time `now`.
unfoldable pub default : {Frame : Type 0} → ℕ → UnresolvedFrames Frame
unfolding replicate
default now = record {
  frames = [];
  thread_name = replicate max_thread_name 0;
  thread_name_length = 0;
  thread_id = 0;
  sample_timestamp = now;
}

-- `UnresolvedFrames::new`. The slice of the name's array is out of range if the name is too long.
unfoldable pub new : {Frame : Type 0} → List Frame → List ℕ → ℕ → ℕ → Run (UnresolvedFrames Frame)
unfolding replicate
new frames tn thread_id sample_timestamp =
    if leb (length tn) max_thread_name
    then returns (record {
      frames = frames;
      thread_name = tn ++ drop (length tn) (replicate max_thread_name 0);
      thread_name_length = length tn;
      thread_id = thread_id;
      sample_timestamp = sample_timestamp;
    })
    else panics

-- `Iterator::zip(xs, ys).all(p)`
unfoldable pub zip_all {ℓ} : {A : Type ℓ} → (A → A → Bool) → List A → List A → Bool
zip_all p [] ys = true
zip_all p (x ∷ xs) [] = true
zip_all p (x ∷ xs) (y ∷ ys) = p x y && zip_all p xs ys

module _ (backend : Backend) where
  open backend use {Frame, symbol_address}

  -- `PartialEq::eq`
  unfoldable pub equal : UnresolvedFrames Frame → UnresolvedFrames Frame → Bool
  unfolding zip_all
  equal a b =
      if not (a.thread_id == b.thread_id) || not (length a.frames == length b.frames)
      then false
      else zip_all (λ s₁ s₂. symbol_address s₁ == symbol_address s₂) a.frames b.frames

  -- `Hash::hash`, as the words that are written to the hasher, in order.
  unfoldable pub hash : UnresolvedFrames Frame → List ℕ
  hash u = map symbol_address u.frames ++ u.thread_id ∷ []
