-- ===== src/EventLoop/Commits.antt =====
-- The commits of the running program (app/ilm_control_wrapper.c, under the loop of app/main.c).
use uhmi_ivi_wm.Base.{String, Option, refl}
use uhmi_ivi_wm.Exec.Exits.{Exits, Exits-pure, Exits-exit, Exits-if, Exits-bind}
use uhmi_ivi_wm.Exec.Keeps.{Anything}
use uhmi_ivi_wm.Ilm.{IlmCall, Ilm}
use uhmi_ivi_wm.State.{start}
use uhmi_ivi_wm.Wrapper.{wrap_ilm_init}
use uhmi_ivi_wm.Env.{Env}
use uhmi_ivi_wm.EventLoop.{System, Running, initialize}
use uhmi_ivi_wm.EventLoop.Invariants.{running_kept}
use uhmi_ivi_wm.Exits.Commits.{CommitCalled, nothing_asked, asks, committing}
use uhmi_ivi_wm.Exits.Closing.{begin, command, notify, Exits-perform}

Exits-wrap_ilm_init : (ilm : Ilm) → Exits CommitCalled Anything (wrap_ilm_init ilm)
unfolding wrap_ilm_init
Exits-wrap_ilm_init ilm =
    Exits-bind _ _ (asks ilm IlmCall.init refl)
      (λ ok. Exits-if ok _ _ (Exits-pure tt) (Exits-exit (λ s h. tt)))

Exits-initialize :
    {J : Type 0} (env : Env J) (path : Option String)
    → Exits CommitCalled Anything (initialize env path)
unfolding initialize
Exits-initialize env path =
    Exits-bind _ _ (Exits-wrap_ilm_init env.ilm)
      (λ u. Exits-perform env (committing env) (begin path))

-- In every state of the running program, whatever messages come, wherever callbacks come in between
-- and whatever libilm answers, `ilm_commitChanges` was called after every change that libilm was asked
-- for; whether libilm then committed it, the program does not look at.
pub Running-CommitCalled :
    {J : Type 0} (env : Env J) (Given : Option String → Type 0) (Sent : String → Type 0)
    {sys : System}
    → Running env Given Sent sys
    → CommitCalled sys.state
Running-CommitCalled env Given Sent =
    running_kept env Sent CommitCalled
      (λ type id. Exits-perform env (committing env) (notify type id))
      (λ msg sent. Exits-perform env (committing env) (command msg)) Given
      (λ path given. (Exits-initialize env path).at start nothing_asked)
