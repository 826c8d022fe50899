-- ===== src/Memory/Controller/Invariant/Upgrade.antt =====
-- Upgrade requests.
use model_lib.Prelude.{Option, get_elem?, if◌then◌else◌, length, some, ℕ, ◌==◌, ◌≤◌}
use model_lib.Memory.Run.{
  Run, Ensures, by_value, Ensures-bind, Ensures-check, Ensures-require, Ensures-if,
}
use model_lib.Memory.RequestQueues.{size}
use model_lib.Memory.Directory.Entry.{set_owner, sharers_list}
use model_lib.Memory.Directory.Store.{
  DirectoryState, uncached, shared, owned, modified, exclusive, Line,
}
use model_lib.Memory.Directory.Cache.{Pointer, load_line}
use model_lib.Memory.Controller.State.{DataBuf, ShmemReq, Config, Controller, is_null}
use model_lib.Memory.Controller.Allocate.{entry_for}
use model_lib.Memory.Controller.Requests.{
  is_core, upgrade_invalidations, is_sole, upgraded, upgrade_owned, upgrade_by_state,
  process_upgrade,
}
use model_lib.Memory.Controller.Coherent.{CoherentAs, set_owner-Sole}
use model_lib.Memory.Controller.Invariant.Serving.{
  read-Coherent, write-AllCoherent, AllCoherent, Serves, send_all-AllCoherent,
}
use model_lib.Memory.Controller.Invariant.Allocation.{Ready, entry_for-Ready}
use model_lib.Memory.Controller.Invariant.Exclusive.{modified-Holds, first_sharer_reply-AllCoherent}

module _ {N : Type 0} (cfg : Config N) {n : ℕ} {next : ℕ → Controller N → Run (Controller N)}
    (serves : Serves n next) (some_fuel : 1 ≤ n) where
  upgraded-AllCoherent :
      (c : Controller N) (p : Pointer) (l : Line) (requester a : ℕ)
      → AllCoherent c
      → CoherentAs modified l.entry
      → size c.requests a ≤ n
      → Ensures AllCoherent (upgraded cfg next c p l requester a)
  upgraded-AllCoherent c p l requester a h k s =
      serves.keeps a _ (write-AllCoherent c p _ h k) some_fuel s

  upgrade_owned-AllCoherent :
      (c : Controller N) (p : Pointer) (l : Line) (requester a : ℕ)
      → AllCoherent c
      → CoherentAs modified l.entry
      → size c.requests a ≤ n
      → Ensures AllCoherent (upgrade_owned cfg next c p l requester a)
  upgrade_owned-AllCoherent c p l requester a h k s =
      Ensures-check _ (get_elem? (sharers_list l.entry) 0) _ λ first ef.
        Ensures-if _ (first == requester) _ _
          (λ t.
            Ensures-require _ (is_core l.entry.owner requester) _
              λ o. upgraded-AllCoherent c p l requester a h k s)
          (λ t. by_value h)

  upgrade_by_state-AllCoherent :
      (t : DirectoryState) (c : Controller N) (p : Pointer) (l : Line) (r : ShmemReq)
      (b : Option DataBuf)
      → AllCoherent c
      → CoherentAs t l.entry
      → size c.requests r.msg.address ≤ n
      → Ensures AllCoherent (upgrade_by_state cfg next t c p l r b)
  upgrade_by_state-AllCoherent exclusive c p l r b h k s =
      upgrade_owned-AllCoherent c p l r.msg.requester r.msg.address h k s
  upgrade_by_state-AllCoherent modified c p l r b h k s =
      upgrade_owned-AllCoherent c p l r.msg.requester r.msg.address h k s
  upgrade_by_state-AllCoherent shared c p l r b h k s =
      Ensures-if _ (is_sole (sharers_list l.entry) r.msg.requester) _ _
        (λ t. Ensures-check _ (set_owner l.entry (some r.msg.requester)) _ λ e ee.
          upgraded-AllCoherent c p (record l { entry = e }) r.msg.requester r.msg.address h
            (r.msg.requester, set_owner-Sole l.entry r.msg.requester t ee) s)
        (λ t. by_value (send_all-AllCoherent c (upgrade_invalidations _ _ _ _ _) h))
  upgrade_by_state-AllCoherent uncached c p l r b h k s =
      Ensures-require _ (length (sharers_list l.entry) == 0) _ λ t.
        first_sharer_reply-AllCoherent cfg serves some_fuel _ c p l r.msg.requester r.msg.address
          (if is_null b then r.msg.data_buf else b) modified-Holds h k s
  upgrade_by_state-AllCoherent owned c p l r b h k s = absurd k

  pub process_upgrade-AllCoherent :
      (c : Controller N) (r : ShmemReq) (b : Option DataBuf)
      → AllCoherent c
      → size c.requests r.msg.address ≤ n
      → Ensures AllCoherent (process_upgrade cfg next c r b)
  unfolding process_upgrade
  process_upgrade-AllCoherent c r b h s =
      Ensures-bind _ (Ready cfg serves r.msg.address) (entry_for cfg next c r) _
        (entry_for-Ready cfg serves c r h some_fuel s)
        λ e k. Ensures-check _ (load_line e.1.cache e.0) _ λ l el.
          upgrade_by_state-AllCoherent l.dstate e.1 e.0 l r b k.0 (read-Coherent e.1 e.0 k.0 el) k.1
