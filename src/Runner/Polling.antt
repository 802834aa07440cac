-- ===== src/Runner/Polling.antt =====
-- agent/internal/agent/runner.go: the poll loop, and how a revoked credential ends it.
--
-- A poll is given by what the server answers to it; a listed run or restore comes with the answer to its
-- claim. A claim that fails to parse counts as refused. The loop is over the ticks until the service stops.
pub mod Revocation
use db_backup_app.Base.{
  ℕ, Bool, true, false, ◌&&◌, not, Option, none, some, List, [], ◌∷◌, ◌++◌, if◌then◌else◌, Text,
  lit, contains,
}

pub data Claimed : Type 0 where
  taken : Claimed  -- 409
  refused : Text → Claimed
  granted : Bool → Claimed  -- with the cancel_requested flag

pub record Listed : Type 0 where
  pub id : ℕ
  pub stopping : Bool  -- ctx.Err() before the claim
  pub claim : Claimed

pub data Answer : Type 0 where
  listed : List Listed → Answer
  failed : Text → Answer

pub record Poll : Type 0 where
  pub stopping : Bool
  pub heartbeat : Option Text
  pub runs : Answer
  pub restores : Answer

pub data Deed : Type 0 where
  beats lists_runs lists_restores : Deed
  claims claims_restore : ℕ → Deed
  backs_up drops restores : ℕ → Deed

-- What a poll did, if it had work, and if the credential is known to be revoked.
pub record Polled : Type 0 where
  pub deeds : List Deed
  pub worked : Bool
  pub revoked : Bool

abbrev pub idle : List Deed → Polled
idle deeds = record { deeds = deeds; worked = false; revoked = false }

abbrev pub after : List Deed → Polled → Polled
after deeds p = record p { deeds = deeds ++ p.deeds }

module _ (lower : Text → Text) where
  unfoldable pub is_revoked_error : Text → Bool
  is_revoked_error e = contains (lower e) (lit "revoked")

  -- ClaimRun's answer; `rest` is the rest of the list.
  unfoldable pub claim_run : ℕ → Claimed → Polled → Polled
  claim_run id taken rest = after (claims id ∷ []) rest
  claim_run id (refused e) rest =
      if is_revoked_error e
      then record { deeds = claims id ∷ []; worked = false; revoked = true }
      else after (claims id ∷ []) rest
  claim_run id (granted cancel) rest = record {
    deeds = claims id ∷ (if cancel then drops id else backs_up id) ∷ [];
    worked = true;
    revoked = false;
  }

  unfoldable pub claim_runs : List Listed → Polled
  claim_runs [] = idle []
  claim_runs (l ∷ ls) =
      let rest = claim_runs ls in
      if l.stopping
      then record { deeds = []; worked = true; revoked = false }
      else claim_run l.id l.claim rest

  unfoldable pub claim_restore : ℕ → Claimed → Polled → Polled
  claim_restore id taken rest = after (claims_restore id ∷ []) rest
  claim_restore id (refused e) rest =
      if is_revoked_error e
      then record { deeds = claims_restore id ∷ []; worked = false; revoked = true }
      else after (claims_restore id ∷ []) rest
  claim_restore id (granted cancel) rest = record {
    deeds = claims_restore id ∷ restores id ∷ [];
    worked = true;
    revoked = false;
  }

  unfoldable pub claim_restores : List Listed → Polled
  claim_restores [] = idle []
  claim_restores (l ∷ ls) =
      let rest = claim_restores ls in
      if l.stopping then idle [] else claim_restore l.id l.claim rest

  unfoldable pub poll_backups : Answer → Polled
  poll_backups (failed e) = record {
    deeds = lists_runs ∷ [];
    worked = false;
    revoked = is_revoked_error e;
  }
  poll_backups (listed ls) = after (lists_runs ∷ []) (claim_runs ls)

  unfoldable pub poll_restores : Answer → Polled
  poll_restores (failed e) = record {
    deeds = lists_restores ∷ [];
    worked = false;
    revoked = is_revoked_error e;
  }
  poll_restores (listed ls) = after (lists_restores ∷ []) (claim_restores ls)

  abbrev pub is_refused : Option Text → Bool
  is_refused none = false
  is_refused (some e) = is_revoked_error e

  -- A revocation that the backups meet still lets the restores be asked for.
  unfoldable pub poll_once : Poll → Polled
  poll_once p =
      let b = poll_backups p.runs in
      let r = poll_restores p.restores in
      if p.stopping
      then idle []
      else if is_refused p.heartbeat
      then record { deeds = beats ∷ []; worked = false; revoked = true }
      else if b.worked
      then after (beats ∷ []) b
      else record {
        deeds = beats ∷ (b.deeds ++ r.deeds);
        worked = r.worked;
        revoked = if b.revoked then true else r.revoked;
      }

  -- Run
  unfoldable pub run : List Poll → List Deed
  run [] = []
  run (p ∷ ps) =
      let rest = run ps in let q = poll_once p in q.deeds ++ (if q.revoked then [] else rest)
