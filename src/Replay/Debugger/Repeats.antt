-- ===== src/Replay/Debugger/Repeats.antt =====
-- debugger.go: searches that are made again, and searches from the end of the recording.
use mathlib.Core.Path.{subst}
use sentra_lab.Base.{
  ℕ, zero, suc, ◌-◌, ◌<◌, String, ◌≡◌, refl, ap, ◌∙◌, Bool, true, false, Option, none, some, List,
  [], ◌∷◌, arith, ok, err, length, get_elem?, str_eq, ℤ, pos, negsuc,
}
use sentra_lab.Replay.Debugger.{
  Debugger, Event, DebugError, scan_up, search_from, search, arrive, find_event_by_type,
  kind_not_found,
}
use sentra_lab.Replay.Debugger.Search.{
  IsFirst, get_elem?-lt, scan_up-hit, scan_up-IsFirst, scan_down-out,
}

module _ {X : Type 0} where
  scan_up_within :
      (p : Event X → Bool) (es : List (Event X)) (n j : ℕ) (e : Event X)
      → 0 < n
      → get_elem? es j ≡ some e
      → p e ≡ true
      → scan_up p es n j ≡ some (j, e)
  scan_up_within p es zero j e pos_n there hit = absurd (omega arith)
  scan_up_within p es (suc n) j e pos_n there hit = scan_up-hit p es n j e there hit

  search_from-again :
      (p : Event X → Bool) (es : List (Event X)) (i : ℤ) (j : ℕ) (e : Event X)
      → search_from p true es i ≡ some (j, e)
      → search_from p true es (pos j) ≡ some (j, e)
  unfolding search_from
  search_from-again p es (pos i) j e h =
      let (le, there, hit, before) =
        subst (IsFirst p es i) h (scan_up-IsFirst p es (length es - i) i (omega arith)) in
      scan_up_within p es (length es - j) j e (omega (arith, get_elem?-lt es j e there)) there hit
  search_from-again p es (negsuc n) j e h = cc

  -- What a search found, the next one from that index finds at once.
  search-again :
      {F : Type 0} (p : Event X → Bool) (d : Debugger X F) (j : ℕ) (e : Event X)
      → search p true d ≡ some (j, e)
      → search p true (record d { current_index = pos j }) ≡ some (j, e)
  unfolding search
  search-again p d j e h = search_from-again p d.events d.current_index j e h

  arrive-again :
      {F : Type 0} (p : Event X → Bool) (fail : DebugError) (d : Debugger X F) (e : Event X)
      (r : Option (ℕ × Event X))
      → search p true d ≡ r
      → (arrive fail r d).0 ≡ ok e
      → let d' = (arrive fail r d).1 in arrive fail (search p true d') d' ≡ (ok e, d')
  unfolding arrive
  arrive-again p fail d e none found h = cc
  arrive-again p fail d e (some (j, x)) found h =
      ap (λ r. arrive fail r (record d { current_index = pos j })) (search-again p d j x found)
      ∙ ap (λ r. (r, record d { current_index = pos j })) h

  -- A forward search that has found an event finds the same one again and again: the index stays at
  -- the event, and the search begins there.
  pub find_event_by_type_again :
      {F : Type 0} (kind : String) (d : Debugger X F) (e : Event X)
      → (find_event_by_type kind true d).0 ≡ ok e
      → let d' = (find_event_by_type kind true d).1 in find_event_by_type kind true d' ≡ (ok e, d')
  unfolding find_event_by_type
  find_event_by_type_again kind d e h =
      let passes = λ (x : Event X). str_eq x.kind kind in
      arrive-again passes (kind_not_found kind) d e (search passes true d) refl h

  get_elem?-length : (es : List (Event X)) → get_elem? es (length es) ≡ none
  get_elem?-length [] = refl
  get_elem?-length (x ∷ es) = get_elem?-length es

  -- At the end of the recording a backward search fails, whatever the recording holds.
  pub find_event_by_type_at_end :
      {F : Type 0} (kind : String) (d : Debugger X F)
      → d.current_index ≡ pos (length d.events)
      → find_event_by_type kind false d ≡ (err (kind_not_found kind), d)
  unfolding find_event_by_type search search_from
  find_event_by_type_at_end kind d h =
      let passes = λ (e : Event X). str_eq e.kind kind in
      ap (λ i. arrive (kind_not_found kind) (search_from passes false d.events i) d) h
      ∙ ap (λ r. arrive (kind_not_found kind) r d)
          (scan_down-out passes d.events (length d.events) (get_elem?-length d.events))
