-- ===== src/Memory/Controller/Invariant/Shared.antt =====
-- Shared requests.
use model_lib.Prelude.{Bool, Option, false, not, refl, subst, sym, true, ℕ, ◌∙◌, ◌≡◌, ◌≤◌}
use model_lib.Memory.Run.{
  Run, Ensures, by_value, Ensures-bind, Ensures-check, Ensures-require, Ensures-if,
}
use model_lib.Memory.RequestQueues.{size}
use model_lib.Memory.Directory.Entry.{has_sharer}
use model_lib.Memory.Directory.Store.{
  DirectoryState, uncached, shared, owned, modified, exclusive, Line, add_sharer, one_sharer,
}
use model_lib.Memory.Directory.Cache.{Pointer, load_line}
use model_lib.Memory.Controller.State.{DataBuf, ShmemReq, Config, Controller, is_null}
use model_lib.Memory.Controller.Allocate.{entry_for}
use model_lib.Memory.Controller.Requests.{is_core, added_reader, forwarded, sh_by_state, process_sh}
use model_lib.Memory.Controller.Coherent.{CoherentAs, Coherent}
use model_lib.Memory.Controller.Coherent.Added.{
  Added, add_sharer-Added, Added-count, one_sharer-Coherent,
}
use model_lib.Memory.Controller.Invariant.Serving.{
  read-Coherent, write-AllCoherent, AllCoherent, Serves, retrieve-AllCoherent,
}
use model_lib.Memory.Controller.Invariant.Allocation.{Ready, entry_for-Ready}
use model_lib.Memory.Controller.Invariant.Exclusive.{
  first_reader-Holds, first_sharer_reply-AllCoherent,
}

module _ {N : Type 0} (cfg : Config N) {n : ℕ} {next : ℕ → Controller N → Run (Controller N)}
    (serves : Serves n next) (some_fuel : 1 ≤ n) where
  added_reader-AllCoherent :
      (x : Bool × Line) (c : Controller N) (p : Pointer) (requester a : ℕ) (b : Option DataBuf)
      → AllCoherent c
      → Coherent x.1
      → size c.requests a ≤ n
      → Ensures AllCoherent (added_reader cfg next x c p requester a b)
  added_reader-AllCoherent (true, l) c p requester a b h k s =
      retrieve-AllCoherent cfg serves some_fuel _ _ requester a b (write-AllCoherent c p l h k) s
  added_reader-AllCoherent (false, l) c p requester a b h k s =
      Ensures-check _ (one_sharer cfg.geometry.scheme l) _ λ x e.
        by_value (write-AllCoherent c p x.1 h (one_sharer-Coherent cfg.geometry.scheme l e k))

  sh_by_state-AllCoherent :
      (t : DirectoryState) (c : Controller N) (p : Pointer) (l : Line) (requester a : ℕ)
      (b : Option DataBuf)
      → l.dstate ≡ t
      → AllCoherent c
      → CoherentAs t l.entry
      → size c.requests a ≤ n
      → Ensures AllCoherent (sh_by_state cfg next t c p l requester a b)
  sh_by_state-AllCoherent exclusive c p l requester a b et h k s =
      Ensures-require _ (not (is_core l.entry.owner requester)) _
        λ o. Ensures-require _ (is_null b) _ λ u. by_value h
  sh_by_state-AllCoherent modified c p l requester a b et h k s =
      Ensures-require _ (is_null b) _ λ u. by_value h
  sh_by_state-AllCoherent shared c p l requester a b et h k s =
      Ensures-if _ (has_sharer l.entry requester) _ _
        (λ t.
          retrieve-AllCoherent cfg serves some_fuel (forwarded cfg next c b) _ requester a b h s)
        (λ t. Ensures-check _ (add_sharer cfg.geometry.scheme l requester) _ λ x ex.
          let added : Added l requester x = add_sharer-Added cfg.geometry.scheme l requester ex in
          added_reader-AllCoherent x c p requester a b h
            (subst (λ t. CoherentAs t x.1.entry) (sym (added.same_state ∙ et))
              (Added-count l requester x added k))
            s)
  sh_by_state-AllCoherent uncached c p l requester a b et h k s =
      first_sharer_reply-AllCoherent cfg serves some_fuel _ c p l requester a b
        (first_reader-Holds cfg.protocol) h k s
  sh_by_state-AllCoherent owned c p l requester a b et h k s = absurd k

  pub process_sh-AllCoherent :
      (c : Controller N) (r : ShmemReq) (b : Option DataBuf)
      → AllCoherent c
      → size c.requests r.msg.address ≤ n
      → Ensures AllCoherent (process_sh cfg next c r b)
  unfolding process_sh
  process_sh-AllCoherent c r b h s =
      Ensures-bind _ (Ready cfg serves r.msg.address) (entry_for cfg next c r) _
        (entry_for-Ready cfg serves c r h some_fuel s)
        λ e k. Ensures-check _ (load_line e.1.cache e.0) _ λ l el.
          sh_by_state-AllCoherent l.dstate e.1 e.0 l r.msg.requester r.msg.address b refl k.0
            (read-Coherent e.1 e.0 k.0 el) k.1
