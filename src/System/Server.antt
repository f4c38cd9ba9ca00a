-- ===== src/System/Server.antt =====
-- The whole server: requests over HTTP on any route, the two workers, the tasks that dispatch webhooks,
-- and the clocks.
use payman.Services.Invoices.Edit.{lock_draft, edit_rows}
use payman.Services.Invoices.Keeps.{lock_draft-Keeps, rewrite-Keeps}
use payman.Services.Invoices.Advance.{lock_draft-Kept, edit_rows-Kept}
use payman.Services.Invoices.Stable.{Allows, OnInvoices}
use payman.Services.Unique.{IsUnique-Allows, IsUnique}
use payman.Services.Invoices.Consistent.{SeesAll, IsConsistent}
use payman.Router.Requests.{
  Distinct-Allows, app-NextKeeps, IsConsistent-Services, Distinct-Services, IsUnique-Services,
}
use payman.Models.{Uuid, LineItem, EditInvoiceRequest}
use payman.Store.{Keeps, transaction, transaction-Keeps, Task, Action, Db}
use payman.Prelude.{Bool, ℕ, List, ◌∷◌, ◌++◌, ◌≡◌, ◌≤◌}
use payman.Prelude.Int.{ℤ}
use payman.Workers.Hooks.{process_pending_deliveries-Safe, dispatch-Safe, HooksKeep}
use payman.Services.Versions.{Distinct}
use payman.Workers.Safe.{ApiKeeps, tick-Safe}
use payman.Router.Keeps.{Services}
use payman.Services.Payments.Safe.{PspKeeps}
use payman.Workers.Webhooks.{Wire, Hooks, process_pending_deliveries, dispatch}
use payman.Middleware.Limits.{AppState}
use payman.Router.{Environment, Request, app}
use payman.Workers.Status.{StatusApi, tick}

-- What the workers take from outside of the repository: the provider's endpoint for outcomes, the texts
-- of a webhook, and the endpoints of the businesses.
pub record Outside : Type 0 where
  pub status_api : StatusApi
  pub wire : Wire
  pub hooks : Hooks

abbrev pub on_world : {A : Type 0} → Action A → AppState → AppState
on_world m s = record s { world = (m s.world).1 }

abbrev pub with_tasks : List Task → AppState → AppState
with_tasks tasks s = record s { world = record s.world { tasks = tasks } }

module _ (env : Environment) (outside : Outside) where
  -- One step of the server: a request is answered, or one of the two parts of an edit is done, a worker has a turn, a spawned task runs, or time
  -- passes.
  pub data ServerStep (s : AppState) : AppState → Type 0 where
    request : (req : Request) → ServerStep s (app env req s).1
    reconcile : ServerStep s (on_world (tick env.lib outside.status_api) s)
    deliver : ServerStep s (on_world (process_pending_deliveries outside.wire outside.hooks) s)
    -- The two parts of an edit, where the server does other things before it comes to the second.
    lock : (id : Uuid) (versioning : ℤ) → ServerStep s (on_world (lock_draft id versioning) s)
    edit_under_lock :
        (seen : LineItem → Bool) (id : Uuid) (req : EditInvoiceRequest)
        → ServerStep s (on_world (transaction (edit_rows seen id req)) s)
    run_task :
        (before after : List Task) (task : Task)
        → s.world.tasks ≡ before ++ task ∷ after
        → ServerStep s (on_world (dispatch outside.wire task) (with_tasks (before ++ after) s))
    wait :
        (now redis_now : ℕ)
        → s.world.now ≤ now
        → ServerStep s (record {
          world = record s.world { now = now };
          redis = record s.redis { now = redis_now };
        })

  pub data ServerRun (s : AppState) : AppState → Type 0 where
    here : ServerRun s s
    next : {t u : AppState} → ServerRun s t → ServerStep t u → ServerRun s u

  -- Each `DELETE` of an edit sees the rows that `S` asks for.
  abbrev pub Sees : ((LineItem → Bool) → Type 0) → {s t : AppState} → ServerStep s t → Type 0
  Sees S (ServerStep.request req) = Unit
  Sees S ServerStep.reconcile = Unit
  Sees S ServerStep.deliver = Unit
  Sees S (ServerStep.lock id versioning) = Unit
  Sees S (ServerStep.edit_under_lock seen id req) = S seen
  Sees S (ServerStep.run_task before after task e) = Unit
  Sees S (ServerStep.wait now redis_now later) = Unit

  abbrev pub AllSee : ((LineItem → Bool) → Type 0) → {s t : AppState} → ServerRun s t → Type 0
  AllSee S ServerRun.here = Unit
  AllSee S (ServerRun.next run step) = AllSee S run × Sees S step

  -- What runs while the server waits for an answer from outside keeps a predicate.
  pub record Quiet (P : Db → Type 0) : Type 0 where
    pub psp : PspKeeps env.psp P
    pub status_api : ApiKeeps outside.status_api P
    pub hooks : HooksKeep outside.hooks P

  -- What the parts of an edit keep.
  record EditsKeep (S : (LineItem → Bool) → Type 0) (P : Db → Type 0) : Type 0 where
    locks : (id : Uuid) (versioning : ℤ) → Keeps P (lock_draft id versioning)
    rewrites :
        (seen : LineItem → Bool) (id : Uuid) (req : EditInvoiceRequest)
        → S seen
        → Keeps P (transaction (edit_rows seen id req))

  IsConsistent-EditsKeep : EditsKeep SeesAll IsConsistent
  IsConsistent-EditsKeep = record { locks = lock_draft-Keeps; rewrites = rewrite-Keeps }

  Allows-EditsKeep : (S : (LineItem → Bool) → Type 0) (P : Db → Type 0) → Allows P → EditsKeep S P
  Allows-EditsKeep S P allows = record {
    locks = lock_draft-Kept P allows;
    rewrites = λ seen id req _. transaction-Keeps _ _ (edit_rows-Kept P allows seen id req);
  }

  module _ (S : (LineItem → Bool) → Type 0) (P : Db → Type 0) (k : Services P)
      (edits : EditsKeep S P) (quiet : Quiet P) where
    ServerStep-Keeps :
        {s t : AppState} (x : ServerStep s t) → Sees S x → P s.world.db → P t.world.db
    ServerStep-Keeps {s} (ServerStep.request req) _ p = (app-NextKeeps env P k quiet.psp req).at s p
    ServerStep-Keeps {s} ServerStep.reconcile _ p =
        (tick-Safe P k.safe env.lib outside.status_api quiet.status_api).at s.world p
    ServerStep-Keeps {s} ServerStep.deliver _ p =
        (process_pending_deliveries-Safe P k.safe outside.wire outside.hooks quiet.hooks).at s.world
          p
    ServerStep-Keeps {s} (ServerStep.lock id versioning) _ p =
        (edits.locks id versioning).at s.world p
    ServerStep-Keeps {s} (ServerStep.edit_under_lock seen id req) sees p =
        (edits.rewrites seen id req sees).at s.world p
    ServerStep-Keeps {s} (ServerStep.run_task before after task e) _ p =
        (dispatch-Safe P k.safe outside.wire task).at _ p
    ServerStep-Keeps (ServerStep.wait now redis_now later) _ p = p

    ServerRun-Keeps :
        {s t : AppState} (run : ServerRun s t) → AllSee S run → P s.world.db → P t.world.db
    ServerRun-Keeps ServerRun.here _ p = p
    ServerRun-Keeps (ServerRun.next run step) (before, last) p =
        ServerStep-Keeps step last (ServerRun-Keeps run before p)

  Sees-any : {s t : AppState} (x : ServerStep s t) → Sees (λ _. Unit {0}) x
  Sees-any (ServerStep.request req) = tt
  Sees-any ServerStep.reconcile = tt
  Sees-any ServerStep.deliver = tt
  Sees-any (ServerStep.lock id versioning) = tt
  Sees-any (ServerStep.edit_under_lock seen id req) = tt
  Sees-any (ServerStep.run_task before after task e) = tt
  Sees-any (ServerStep.wait now redis_now later) = tt

  AllSee-any : {s t : AppState} (run : ServerRun s t) → AllSee (λ _. Unit {0}) run
  AllSee-any ServerRun.here = tt
  AllSee-any (ServerRun.next run step) = (AllSee-any run, Sees-any step)

  -- A property of any edit, whatever its `DELETE` sees.
  ServerRun-Allows :
      (P : Db → Type 0)
      → Services P
      → Allows P
      → Quiet P
      → {s t : AppState} → ServerRun s t
      → P s.world.db
      → P t.world.db
  ServerRun-Allows P k allows quiet run =
      ServerRun-Keeps _ P k (Allows-EditsKeep _ P allows) quiet run (AllSee-any run)

  -- Whatever requests the server is sent, on whatever routes, with whatever keys and bodies, and
  -- whatever fails, and whenever the workers and the spawned tasks run: if no edit deletes line items
  -- while another transaction is adding some that it does not see, consistent tables stay consistent,
  -- and the identifiers of the invoices stay distinct. What runs while the server waits for the provider
  -- or for an endpoint keeps that too.
  pub ServerRun-IsConsistent :
      {s t : AppState}
      → Quiet IsConsistent
      → Quiet (OnInvoices Distinct)
      → IsConsistent s.world.db
      → Distinct s.world.db.invoices
      → (run : ServerRun s t) → AllSee SeesAll run
      → IsConsistent t.world.db × Distinct t.world.db.invoices
  ServerRun-IsConsistent quiet quiet' h k run sees = (
    ServerRun-Keeps _ IsConsistent IsConsistent-Services IsConsistent-EditsKeep quiet run sees h,
    ServerRun-Allows (OnInvoices Distinct) Distinct-Services Distinct-Allows quiet' run k,
  )

  -- Whatever requests the server is sent, whatever fails, and whenever the workers and the spawned tasks
  -- run: no two API keys have one hash, no two customers of a business have one email, and no two
  -- responses are stored for one key of a payment, its business and its invoice, if it was so at the
  -- start. What runs while the server waits for the provider or for an endpoint keeps that too.
  pub ServerRun-IsUnique :
      {s t : AppState} → Quiet IsUnique → IsUnique s.world.db → ServerRun s t → IsUnique t.world.db
  ServerRun-IsUnique quiet h run =
      ServerRun-Allows IsUnique IsUnique-Services IsUnique-Allows quiet run h
