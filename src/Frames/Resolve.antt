-- ===== src/Frames/Resolve.antt =====
-- `From<UnresolvedFrames> for Frames` of src/frames.rs: every frame becomes the list of its symbols
-- (inlined calls give several), without the signal handler's own frame and the one behind it.
use mathlib.Core.List.{append-nil}
use strict_pprof_rs.Base.{
  ℕ, ◌≡◌, refl, ap, Bool, true, false, Option, none, some, List, [], ◌∷◌, ◌++◌, map, arith,
  if◌then◌else◌, ◌&&◌, ◌||◌, not, ◌≢◌, subst, sym, ◌∙◌, Run, returns, ◌>>=◌, ◌⊎◌, inl, inr,
  Bool-cases,
}
use strict_pprof_rs.Collector.Bucket.{slice}
use strict_pprof_rs.Frames.{Backend, UnresolvedFrames, RawSymbol}
use strict_pprof_rs.Frames.Handler.{
  is_handler, NamesHandler, IsClean, is_handler-NamesHandler, is_handler-IsClean,
}
use strict_pprof_rs.Frames.Symbol.{Symbol, Texts, Frames, from}

-- `if !symbols.is_empty() { fs.push(symbols) }`, before what comes later.
abbrev keep : List Symbol → List (List Symbol) → List (List Symbol)
keep [] rest = rest
keep (s ∷ ss) rest = (s ∷ ss) ∷ rest

module _ (backend : Backend) (texts : Texts) (resolve_in_perfmap : ℕ → Option Symbol) where
  open backend use {Frame, ip, resolve_symbol}

  -- The symbols of one frame.
  unfoldable pub symbols_of : Frame → List Symbol
  symbols_of frame = elim (resolve_in_perfmap (ip frame)) [
    | some symbol ↦ symbol ∷ []
    | none ↦ map from (resolve_symbol frame)
  ]

  -- The loop; `skip` tells that `frame_iter.next()` has passed over the next frame.
  unfoldable pub resolve_frames : Bool → List Frame → List (List Symbol)
  resolve_frames skip [] = []
  resolve_frames skip (f ∷ fs) =
      let symbols = symbols_of f in
      let handler = is_handler texts symbols in
      let rest = resolve_frames (not skip && handler) fs in
      if skip || handler then rest else keep symbols rest

  -- `Frames::from`
  unfoldable pub resolve : UnresolvedFrames Frame → Run Frames
  resolve u = slice u.thread_name u.thread_name_length >>= λ thread_name. returns (record {
    frames = resolve_frames false u.frames;
    thread_name = texts.from_utf8_lossy thread_name;
    thread_id = u.thread_id;
    sample_timestamp = u.sample_timestamp;
  })

  -- What a frame stands for: the symbol that the perf map has at its address, or else all symbols that
  -- the backend finds, field by field.
  abbrev shown_by : Option Symbol → List RawSymbol → List Symbol
  shown_by (some symbol) raws = symbol ∷ []
  shown_by none raws =
      map
        (λ raw. record {
          name = raw.name;
          addr = raw.addr;
          lineno = raw.lineno;
          filename = raw.filename;
        })
        raws

  abbrev pub shown : Frame → List Symbol
  shown f = shown_by (resolve_in_perfmap (ip f)) (resolve_symbol f)

  symbols_of-shown : (f : Frame) → symbols_of f ≡ shown f
  unfolding symbols_of from
  symbols_of-shown f = by_perfmap (resolve_in_perfmap (ip f))
    where
      by_perfmap :
          (o : Option Symbol)
          → (elim o [ some symbol ↦ symbol ∷ [] | none ↦ map from (resolve_symbol f) ])
            ≡ shown_by o (resolve_symbol f)
      by_perfmap (some symbol) = refl
      by_perfmap none = refl

  -- None of the frames is the signal handler's.
  abbrev pub HandlerFree : List Frame → Type 0
  HandlerFree [] = Unit
  HandlerFree (f ∷ fs) = IsClean texts (shown f) × HandlerFree fs

  -- The lists that are not empty.
  abbrev with_symbols : List (List Symbol) → List (List Symbol)
  with_symbols [] = []
  with_symbols ([] ∷ rest) = with_symbols rest
  with_symbols ((s ∷ ss) ∷ rest) = (s ∷ ss) ∷ with_symbols rest

  -- The symbols of the frames that have any.
  abbrev pub symbolised : List Frame → List (List Symbol)
  symbolised fs = with_symbols (map shown fs)

  with_symbols-append :
      (ss : List Symbol) (xs ys : List (List Symbol))
      → keep ss (with_symbols xs ++ ys) ≡ with_symbols (ss ∷ xs) ++ ys
  with_symbols-append [] xs ys = refl
  with_symbols-append (s ∷ ss) xs ys = refl

  resolve_frames-append :
      (before after : List Frame)
      → HandlerFree before
      → resolve_frames false (before ++ after) ≡ symbolised before ++ resolve_frames false after
  unfolding resolve_frames
  resolve_frames-append [] after h = refl
  resolve_frames-append (f ∷ fs) after h =
      let clean : is_handler texts (shown f) ≡ false = (is_handler-IsClean texts (shown f)).1 h.0 in
      rw (symbols_of-shown f, clean, resolve_frames-append fs after h.1)
        (with_symbols-append (shown f) (map shown fs) (resolve_frames false after))

  -- Where a frame has a symbol named as the signal handler and no other does, but for the one behind it
  -- perhaps, these two are left out. Of all others those with symbols are kept, in order: each with the
  -- symbol that the perf map has for it, or else with all that the backend finds.
  pub resolve_frames-handler :
      (before after : List Frame) (handler behind : Frame)
      → HandlerFree before
      → NamesHandler texts (shown handler)
      → HandlerFree after
      → resolve_frames false (before ++ (handler ∷ behind ∷ after))
        ≡ symbolised before ++ symbolised after
  unfolding resolve_frames
  resolve_frames-handler before after handler behind h is k =
      rw (resolve_frames-append before (handler ∷ behind ∷ after) h)
        (ap (λ xs. symbolised before ++ xs) (two_gone))
    where
      rest : resolve_frames false after ≡ symbolised after
      rest =
          subst (λ fs. resolve_frames false fs ≡ symbolised after) (append-nil after)
            (resolve_frames-append after [] k ∙ append-nil (symbolised after))

      two_gone : resolve_frames false (handler ∷ behind ∷ after) ≡ symbolised after
      two_gone =
          rw (symbols_of-shown handler, (is_handler-NamesHandler texts (shown handler)).1 is) rest

  -- What is kept of the frames, where `behind` are the symbols of the frame before them. A frame is kept
  -- with all that it stands for, or there is a reason to leave it out.
  pub data Keeps : List Symbol → List Frame → List (List Symbol) → Type 0 where
    ended : {behind : List Symbol} → Keeps behind [] []
    kept :
        {behind : List Symbol} {f : Frame} {fs : List Frame} {out : List (List Symbol)}
        → shown f ≢ []
        → IsClean texts (shown f)
        → Keeps (shown f) fs out
        → Keeps behind (f ∷ fs) (shown f ∷ out)
    left_out :
        {behind : List Symbol} {f : Frame} {fs : List Frame} {out : List (List Symbol)}
        → (shown f ≡ []) ⊎ (NamesHandler texts (shown f) ⊎ NamesHandler texts behind)
        → Keeps (shown f) fs out
        → Keeps behind (f ∷ fs) out

  keep-Keeps :
      (behind : List Symbol) (f : Frame) (fs : List Frame) (out : List (List Symbol))
      → IsClean texts (shown f)
      → Keeps (shown f) fs out
      → Keeps behind (f ∷ fs) (keep (shown f) out)
  keep-Keeps behind f fs out clean rest = by_symbols (shown f) refl
    where
      by_symbols : (ss : List Symbol) → shown f ≡ ss → Keeps behind (f ∷ fs) (keep ss out)
      by_symbols [] none_there = left_out (inl none_there) rest
      by_symbols (s ∷ ss) same =
          subst (λ xs. Keeps behind (f ∷ fs) (xs ∷ out)) same
            (kept (λ e. let never = sym same ∙ e in cc) clean rest)

  resolving-Keeps :
      (skip : Bool) (behind : List Symbol) (fs : List Frame)
      → (skip ≡ true → NamesHandler texts behind)
      → Keeps behind fs (resolve_frames skip fs)
  unfolding resolve_frames
  resolving-Keeps skip behind [] h = ended
  resolving-Keeps skip behind (f ∷ fs) h =
      let handler = is_handler texts (shown f) in
      let rest =
        resolving-Keeps (not skip && handler) (shown f) fs
          (λ e. (is_handler-NamesHandler texts (shown f)).0 (ground (arith, e))) in
      rw (symbols_of-shown f) (elim (Bool-cases skip) [
        | inl on ↦ rw on (left_out (inr (inr (h on))) (rw on at rest))
        | inr off ↦ elim (Bool-cases handler) [
          | inl is ↦
              rw (off, is)
                (left_out (inr (inl ((is_handler-NamesHandler texts (shown f)).0 is)))
                  (rw (off, is) at rest))
          | inr is_not ↦
              rw (off, is_not)
                (keep-Keeps behind f fs _ ((is_handler-IsClean texts (shown f)).0 is_not)
                  (rw (off, is_not) at rest))
        ]
      ])

  -- Whatever the frames are, and however often the handler is among them: what is kept is in order, and
  -- each kept frame has all its symbols, at least one, of which none is named as the signal handler. A
  -- frame is left out only if it has no symbols, if one of them is named so, or if one of the symbols of
  -- the frame before it is.
  pub resolve_frames-Keeps : (fs : List Frame) → Keeps [] fs (resolve_frames false fs)
  resolve_frames-Keeps fs = resolving-Keeps false [] fs (λ e. absurd (cc e))
