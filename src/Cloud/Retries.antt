-- ===== src/Cloud/Retries.antt =====
-- packages/cli/cmd/cloud/push.go: how often UploadRun tries, and what its success means.
use sentra_lab.Base.{
  ℕ, zero, suc, ◌+◌, ◌≤◌, String, ◌≡◌, refl, Option, none, some, arith, Option-cases, Bool-cases,
  inl, inr,
}
use sentra_lab.Cloud.{CloudError, Context}
use sentra_lab.Cloud.Upload.{UploadManager, pause, attempts, upload_run, is_retryable}

module _ {W : Type 0} (ctx : Context W) (push_run : String → W → Option CloudError × W) where
  -- The world with a count of the calls of PushRun.
  abbrev pub counted : String → ℕ × W → Option CloudError × (ℕ × W)
  counted run_id (n, w) = ((push_run run_id w).0, (n + 1, (push_run run_id w).1))

  abbrev pub counting : Context (ℕ × W)
  counting = record {
    is_done = λ v. ctx.is_done v.1;
    wait = λ delay v. ((ctx.wait delay v.1).0, (v.0, (ctx.wait delay v.1).1));
  }

  pause-count :
      (um : UploadManager) (attempt : ℕ) (v : ℕ × W)
      → (pause counting counted um attempt v).1.0 ≡ v.0
  unfolding pause
  pause-count um zero v = refl
  pause-count um (suc attempt) v = refl

  attempts_bounds :
      (um : UploadManager) (run_id : String) (left attempt : ℕ) (last_err : Option CloudError)
      (v : ℕ × W)
      → (attempts counting counted um run_id left attempt last_err v).1.0 ≤ v.0 + left
  unfolding attempts is_retryable
  attempts_bounds um run_id zero attempt last_err v = omega arith
  attempts_bounds um run_id (suc left) attempt last_err v =
      let r = pause counting counted um attempt v in
      let c = counted run_id r.1 in
      let same = pause-count um attempt v in
      elim (Bool-cases r.0) [
        | inl done ↦ rw done (omega (arith, same))
        | inr going ↦ elim (Option-cases c.0) [
          | inl sent ↦ rw (going, sent) (omega (arith, same))
          | inr (e, failed) ↦
              let next = attempts_bounds um run_id left (attempt + 1) (some e) c.1 in
              rw (going, failed) (omega (arith, same, next))
        ]
      ]

  -- An upload calls PushRun at most as often as the manager retries.
  pub upload_run_bounds :
      (um : UploadManager) (run_id : String) (n : ℕ) (w : W)
      → (upload_run counting counted um run_id (n, w)).1.0 ≤ n + um.max_retries
  unfolding upload_run
  upload_run_bounds um run_id n w = attempts_bounds um run_id um.max_retries 0 none (n, w)

  attempts-ok :
      (um : UploadManager) (run_id : String) (left attempt : ℕ) (last_err : Option CloudError)
      (w : W)
      → (attempts ctx push_run um run_id left attempt last_err w).0 ≡ none
      → (before : W) × ((push_run run_id before).0 ≡ none)
        × ((attempts ctx push_run um run_id left attempt last_err w).1 ≡ (push_run run_id before).1)
  unfolding attempts is_retryable
  attempts-ok um run_id zero attempt last_err w h = absurd (cc)
  attempts-ok um run_id (suc left) attempt last_err w h =
      let r = pause ctx push_run um attempt w in
      elim (Bool-cases r.0) [
        | inl done ↦ absurd (ground arith)
        | inr going ↦ elim (Option-cases (push_run run_id r.1).0) [
          | inl sent ↦ (r.1, sent, rw (going, sent) refl)
          | inr (e, failed) ↦
              let (before, sent, last) =
                attempts-ok um run_id left (attempt + 1) (some e) (push_run run_id r.1).1
                  (ground arith) in
              (before, sent, rw (going, failed) last)
        ]
      ]

  -- An upload that returns no error ended with a call of PushRun that returned none.
  pub upload_run-ok :
      (um : UploadManager) (run_id : String) (w : W)
      → (upload_run ctx push_run um run_id w).0 ≡ none
      → (before : W) × ((push_run run_id before).0 ≡ none)
        × ((upload_run ctx push_run um run_id w).1 ≡ (push_run run_id before).1)
  unfolding upload_run
  upload_run-ok um run_id w h = attempts-ok um run_id um.max_retries 0 none w h
