-- ===== src/Store/Machine/Closed.antt =====
-- Errors and the life cycle of the in-memory store, over all its calls.
use sentra_lab.Base.{
  String, ◌≡◌, refl, ap, ◌∙◌, Bool, true, false, Option, none, some, List, [], ◌∷◌, arith,
  Bool-cases, inl, inr, Result, ok, err, Dict,
}
use sentra_lab.Base.Float64.{Float64}
use sentra_lab.Store.{Time, Item, MemoryStore, is_expired}
use sentra_lab.Store.Errors.{StorageError, is_not_found}
use sentra_lab.Store.Memory.{
  get, set_value, delete, exists, increment, decrement, set_nx, expire, ttl, flush, close, cleanup,
}
use sentra_lab.Store.Memory.View.{view}
use sentra_lab.Store.Multi.{get_multi, set_multi, delete_multi, keys, keys_in, pick}
use sentra_lab.Store.Tokens.{
  get_tokens, set_tokens, get_last_refill, set_last_refill, decrement_tokens, increment_tokens,
}
use sentra_lab.Store.Machine.{Call, perform, run, error_of}

-- The calls that a client makes on an open or a closed store and that report a closed one.
abbrev pub reports : {F : Type 0} → Call F → Bool
reports Call.close_call = false
reports Call.tick = false
reports _ = true

-- The error of a closed store.
abbrev pub SaysClosed : Option StorageError → Type 0
SaysClosed none = ⊥
SaysClosed (some e) = e.cause ≡ some "storage is closed"

-- There is no error, or it wraps another one, as none of the predeclared errors does.
abbrev pub wraps : Option StorageError → Bool
wraps none = true
wraps (some e) = elim e.cause [ none ↦ false | some t ↦ true ]

not_found_of_wraps : (o : Option StorageError) → wraps o ≡ true → is_not_found o ≡ false
unfolding is_not_found
not_found_of_wraps none h = refl
not_found_of_wraps (some e) h = ground arith

wraps-pick :
    (k : String) (o : Option Bool) (rest : Result StorageError (List String))
    → wraps (error_of rest) ≡ true
    → wraps (error_of (pick k o rest)) ≡ true
unfolding pick
wraps-pick k none rest h = refl
wraps-pick k (some b) (err e) h = h
wraps-pick k (some true) (ok ks) h = refl
wraps-pick k (some false) (ok ks) h = refl

module _ {F : Type 0} ⦃fl : Float64 F⦄ (matches : String → String → Option Bool) where
  -- After Close every such call fails with "storage is closed" and changes nothing.
  pub perform-closed :
      (now : Time) (c : Call F) (s : MemoryStore F)
      → s.closed ≡ true
      → reports c ≡ true
      → SaysClosed (perform matches now c s).0 × ((perform matches now c s).1 ≡ s)
  unfolding perform get set_value delete exists increment decrement set_nx expire ttl flush
      get_multi set_multi delete_multi keys get_tokens set_tokens get_last_refill set_last_refill
      decrement_tokens increment_tokens
  perform-closed now Call.close_call s h r = cc
  perform-closed now Call.tick s h r = cc
  perform-closed now _ s h r = (ground arith, ground arith)

  -- No call opens a closed store again.
  pub closed-perform :
      (now : Time) (c : Call F) (s : MemoryStore F)
      → s.closed ≡ true
      → (perform matches now c s).1.closed ≡ true
  unfolding perform close cleanup
  closed-perform now Call.close_call s h = refl
  closed-perform now Call.tick s h = ground arith
  closed-perform now (Call.get_call k) s h =
      ap (λ x. x.closed) (perform-closed now (Call.get_call k) s h refl).1 ∙ h
  closed-perform now c s h = ap (λ x. x.closed) (perform-closed now c s h refl).1 ∙ h

  -- Once closed, a store stays closed and shows no value, whatever is called on it and whenever.
  pub run-closed :
      (cs : List (Time × Call F)) (s : MemoryStore F)
      → s.closed ≡ true
      → ((run matches cs s).closed ≡ true)
        × ((t : Time) (k : String) → view t (run matches cs s) k ≡ none)
  unfolding run view
  run-closed [] s h = (h, λ t k. ground arith)
  run-closed ((now, c) ∷ cs) s h =
      run-closed cs (perform matches now c s).1 (closed-perform now c s h)

  wraps-keys_in :
      (now : Time) (p : String) (m : Dict (Item F))
      → wraps (error_of (keys_in matches now p m)) ≡ true
  unfolding keys_in
  wraps-keys_in now p [] = refl
  wraps-keys_in now p ((k, i) ∷ m) =
      let rest = wraps-keys_in now p m in
      elim (Bool-cases (is_expired now i)) [
        | inl gone ↦ rw gone rest
        | inr here ↦ rw here (wraps-pick k (matches p k) (keys_in matches now p m) rest)
      ]

  -- Every error of the in-memory store wraps another one.
  wraps-perform :
      (now : Time) (c : Call F) (s : MemoryStore F) → wraps (perform matches now c s).0 ≡ true
  unfolding perform get set_value delete exists increment decrement set_nx expire ttl flush
      get_multi set_multi delete_multi keys get_tokens set_tokens get_last_refill set_last_refill
      decrement_tokens increment_tokens close
  wraps-perform now (Call.keys_call p) s = ground (arith, wraps-keys_in now p s.items)
  wraps-perform now (Call.get_call k) s = ground arith
  wraps-perform now _ s = ground arith

  -- `IsNotFound` is false of the error of every call, so also of a Get of a key that is not there.
  pub not_found-perform :
      (now : Time) (c : Call F) (s : MemoryStore F)
      → is_not_found (perform matches now c s).0 ≡ false
  not_found-perform now c s = not_found_of_wraps _ (wraps-perform now c s)
