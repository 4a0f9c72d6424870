-- ===== src/Programs/Systemcalls.antt =====
-- `do_system`, `do_exec` and `do_exec_redirect` (examples/systemcalls/systemcalls.c).
use embedded_linux.Common.{
  ℕ, zero, suc, ◌≡◌, ◌↔◌, ◌⊎◌, inl, inr, refl, ap, ◌∙◌, Bool, true, false, not, Option, none, some,
  if◌then◌else◌,
}

-- How a process ended: by `exit` with a code, or by a signal.
pub data Status : Type 0 where
  exited : ℕ → Status
  killed : ℕ → Status

-- `WIFEXITED(status) && WEXITSTATUS(status) == 0`
unfoldable pub is_success : Status → Bool
is_success (exited zero) = true
is_success (exited (suc n)) = false
is_success (killed n) = false

-- What `system` gives: -1, or the status of the shell, which is 0 only for `exit` with 0.
pub data Shell : Type 0 where
  refused : Shell
  finished : Status → Shell

unfoldable pub is_zero : Shell → Bool
is_zero refused = false
is_zero (finished s) = is_success s

-- `do_system(cmd)`, by what `system(cmd)` gives for a command; none is NULL.
unfoldable pub do_system {ℓ} : {Command : Type ℓ} → (Command → Shell) → Option Command → Bool
do_system system none = false
do_system system (some cmd) = if not (is_zero (system cmd)) then false else true

-- Which calls are granted, and how the program ends that `execv` starts.
pub record Answers : Type 0 where
  pub fork : Bool
  pub opens : Bool
  pub dup2 : Bool
  pub execv : Bool
  pub program : Status
  pub waitpid : Bool

-- A child process: whether its standard output is the file, the descriptors that it has besides the
-- standard ones, whether the program was started in it, and how it ended.
pub record Child : Type 0 where
  pub to_file : Bool
  pub extra_files : ℕ
  pub started : Bool
  pub status : Status

-- `execv(command[0], command)`, and `exit(EXIT_FAILURE)` if it returns.
unfoldable pub exec_or_exit : Answers → Bool → ℕ → Child
exec_or_exit a to_file extra_files = record {
  to_file = to_file;
  extra_files = extra_files;
  started = a.execv;
  status = if a.execv then a.program else exited 1;
}

abbrev pub exit_failure : Bool → ℕ → Child
exit_failure to_file extra_files = record {
  to_file = to_file;
  extra_files = extra_files;
  started = false;
  status = exited 1;
}

-- The child of `do_exec_redirect`: the file is opened, made the standard output, and its own
-- descriptor closed.
unfoldable pub redirect_child : Answers → Child
redirect_child a =
    if not a.opens
    then exit_failure false 0
    else if not a.dup2
    then exit_failure false 0
    else exec_or_exit a true 0

-- What `waitpid(pid, &status, 0)` leaves in `status`, which is 0 before.
unfoldable pub waited : Answers → Child → Status
waited a child = if a.waitpid then child.status else exited 0

-- `do_exec(count, ...)`
unfoldable pub do_exec : Answers → Bool
do_exec a = if not a.fork then false else is_success (waited a (exec_or_exit a false 0))

-- `do_exec_redirect(outputfile, count, ...)`
unfoldable pub do_exec_redirect : Answers → Bool
do_exec_redirect a =
    if not a.fork
    then false
    else if not a.waitpid
    then false
    else is_success (waited a (redirect_child a))

is_success_iff : (s : Status) → (is_success s ≡ true) ↔ (s ≡ exited 0)
unfolding is_success
is_success_iff (exited zero) = (λ h. refl, λ h. refl)
is_success_iff (exited (suc n)) = (λ h. cc, λ h. cc)
is_success_iff (killed n) = (λ h. cc, λ h. cc)

some_inj {ℓ} : {A : Type ℓ} (x y : A) → some x ≡ some y → x ≡ y
some_inj x y h = cc

-- do_system returns true exactly for a command, not NULL, that the shell ended with `exit` and 0.
pub do_system_iff {ℓ} :
    {Command : Type ℓ} (system : Command → Shell) (cmd : Option Command)
    → (do_system system cmd ≡ true)
      ↔ ((c : Command) × (cmd ≡ some c) × (system c ≡ finished (exited 0)))
unfolding do_system is_zero is_success
do_system_iff system none = (λ h. absurd (cc), λ (c, e, h). absurd (cc))
do_system_iff system (some cmd) = (
  λ h. (cmd, refl, ended (system cmd) h),
  λ (c, e, h). success (system cmd) (ap system (some_inj cmd c e) ∙ h),
)
  where
    ended : (x : Shell) → (if not (is_zero x) then false else true) ≡ true → x ≡ finished (exited 0)
    ended refused h = absurd (cc)
    ended (finished (exited zero)) h = refl
    ended (finished (exited (suc n))) h = absurd (cc)
    ended (finished (killed n)) h = absurd (cc)

    success :
        (x : Shell) → x ≡ finished (exited 0) → (if not (is_zero x) then false else true) ≡ true
    success x e = rw e refl

exec_cases :
    (fork waitpid execv : Bool) (program : Status)
    → ((if not fork
          then false
          else is_success (if waitpid then (if execv then program else exited 1) else exited 0))
        ≡ true)
      ↔ ((fork ≡ true)
          × ((waitpid ≡ false) ⊎ ((waitpid ≡ true) × (execv ≡ true) × (program ≡ exited 0))))
unfolding is_success
exec_cases false w e s = (λ h. absurd (cc), λ (f, h). f)
exec_cases true false e s = (λ h. (refl, inl refl), λ h. refl)
exec_cases true true false s =
    (λ h. absurd (cc), λ (f, h). elim h [ inl a ↦ absurd (cc) | inr (a, b, c) ↦ absurd (cc) ])
exec_cases true true true s = (
  λ h. (refl, inr (refl, refl, (is_success_iff s).0 h)),
  λ (f, h). elim h [ inl a ↦ absurd (cc) | inr (a, b, c) ↦ (is_success_iff s).1 c ],
)

-- do_exec returns true exactly if `fork` is granted and either the program was started and ended by
-- `exit` with 0, which `waitpid` told, or `waitpid` failed, whatever became of the program.
pub do_exec_iff :
    (a : Answers)
    → (do_exec a ≡ true) ↔ (
        (a.fork ≡ true)
        × ((a.waitpid ≡ false) ⊎ ((a.waitpid ≡ true) × (a.execv ≡ true) × (a.program ≡ exited 0))))
unfolding do_exec waited exec_or_exit is_success
do_exec_iff a = exec_cases a.fork a.waitpid a.execv a.program

-- The child in which the program runs as it should.
abbrev pub redirected : Status → Child
redirected s = record { to_file = true; extra_files = 0; started = true; status = s }

redirect_cases :
    (fork waitpid opens dup2 execv : Bool) (program : Status)
    → let a : Answers = record {
      fork = fork;
      opens = opens;
      dup2 = dup2;
      execv = execv;
      program = program;
      waitpid = waitpid;
    } in
      (do_exec_redirect a ≡ true) ↔ (
        (fork ≡ true)
        × (waitpid ≡ true)
        × (program ≡ exited 0)
        × (redirect_child a ≡ redirected program))
unfolding do_exec_redirect waited redirect_child exec_or_exit is_success
redirect_cases false w o d e s = (λ h. absurd (cc), λ h. h.0)
redirect_cases true false o d e s = (λ h. absurd (cc), λ h. h.1)
redirect_cases true true false d e s =
    (λ h. absurd (cc), λ h. absurd (cc (ap (λ c. c.started) h.3)))
redirect_cases true true true false e s =
    (λ h. absurd (cc), λ h. absurd (cc (ap (λ c. c.started) h.3)))
redirect_cases true true true true false s =
    (λ h. absurd (cc), λ h. absurd (cc (ap (λ c. c.started) h.3)))
redirect_cases true true true true true s =
    (λ h. (refl, refl, (is_success_iff s).0 h, refl), λ h. (is_success_iff s).1 h.2)

-- do_exec_redirect returns true exactly if every call is granted and the program ended by `exit`
-- with 0; the program then ran with the file as its standard output and no descriptor more.
pub do_exec_redirect_iff :
    (a : Answers)
    → (do_exec_redirect a ≡ true) ↔ (
        (a.fork ≡ true)
        × (a.waitpid ≡ true)
        × (a.program ≡ exited 0)
        × (redirect_child a ≡ redirected a.program))
unfolding do_exec_redirect waited redirect_child exec_or_exit is_success
do_exec_redirect_iff a = redirect_cases a.fork a.waitpid a.opens a.dup2 a.execv a.program
