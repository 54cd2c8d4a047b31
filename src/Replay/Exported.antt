-- ===== src/Replay/Exported.antt =====
-- packages/cli/cmd/replay: which run is taken, and what an export holds.
use sentra_lab.Base.{
  String, ◌≡◌, ◌≢◌, refl, ap, true, false, Option, some, List, [], ◌∷◌, ◌++◌, All, arith, str_eq,
  ok, Value, if_elim, Bool-cases, Option-cases, inl, inr,
}
use sentra_lab.Base.Files.{FileSystem}
use sentra_lab.Replay.Recordings.{Recording, Formats}
use sentra_lab.Replay.Export.{unsupported_format, new_exporter, render_as, export}
use sentra_lab.Replay.Runs.{RunSummary, first_failed, get_last_failed_run}

-- The runs before the one that is taken did not fail.
abbrev pub IsLastFailed : List RunSummary → String → Type 0
IsLastFailed runs id =
    (before after : List RunSummary) × (run : RunSummary) × (runs ≡ before ++ (run ∷ after))
    × All (λ r. str_eq r.status "failed" ≡ false) before
    × (str_eq run.status "failed" ≡ true)
    × (run.id ≡ id)

module _ {E : Type 0} where
  first_failed-IsLastFailed :
      (runs : List RunSummary) (id : String)
      → first_failed {E = E} runs ≡ ok id
      → IsLastFailed runs id
  unfolding first_failed
  first_failed-IsLastFailed [] id h = absurd (cc)
  first_failed-IsLastFailed (run ∷ runs) id h = elim (Bool-cases (str_eq run.status "failed")) [
    | inl failed ↦ ([], runs, run, refl, tt, failed, ground arith)
    | inr passed ↦
        let (before, after, r, eq, all, failed, same) =
          first_failed-IsLastFailed runs id (ground arith) in
        (run ∷ before, after, r, ap (λ rs. run ∷ rs) eq, (passed, all), failed, same)
  ]

  -- The run that is replayed without an argument is the first in the list that failed.
  pub get_last_failed_run-IsLastFailed :
      (runs : List RunSummary) (id : String)
      → get_last_failed_run {E = E} (ok runs) ≡ ok id
      → IsLastFailed runs id
  unfolding get_last_failed_run
  get_last_failed_run-IsLastFailed runs id h = first_failed-IsLastFailed runs id h

module _ {F : Type 0} (fmt : Formats F) where
  new_exporter-renders :
      (json : Recording F → Option String) (har : Value F → Option String) (ext : String → String)
      (path : String) (r : Recording F)
      → (o : Option String) × (render_as fmt json har (new_exporter ext path).format r ≡ some o)
  unfolding new_exporter render_as
  new_exporter-renders json har ext path r =
      let P : String → Type 0 = λ f. (o : Option String) × (render_as fmt json har f r ≡ some o) in
      let e = ext path in
      if_elim P (str_eq e ".json") _ _ (_, refl)
        (if_elim P (str_eq e ".html") _ _ (_, refl)
          (if_elim P (str_eq e ".har") _ _ (_, refl)
            (if_elim P (str_eq e ".md") _ _ (_, refl) (_, refl))))

  -- An exporter that NewExporter made supports its format, whatever the path.
  pub export-new_exporter :
      {W : Type 0} (fs : FileSystem W) (json : Recording F → Option String)
      (har : Value F → Option String) (ext : String → String) (path format : String)
      (r : Recording F) (w : W)
      → (export fmt fs json har (new_exporter ext path) r w).0 ≢ some (unsupported_format format)
  unfolding export
  export-new_exporter fs json har ext path format r w h =
      let (o, rendered) = new_exporter-renders json har ext path r in
      elim (Option-cases o) [
        | inl failed ↦ ground arith
        | inr (text, made) ↦
            elim (Bool-cases (fs.write (new_exporter ext path).output_path text w).0) [
              | inl written ↦ ground arith
              | inr lost ↦ ground arith
            ]
      ]
