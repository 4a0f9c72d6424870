-- ===== src/Programs/Tests.antt =====
-- A program that is killed while `waitpid` fails.
use embedded_linux.Common.{◌≡◌, ◌⊎◌, ◌↔◌, refl, true, false}
use embedded_linux.Common.Codes.{codes}
use embedded_linux.Programs.Systemcalls.{
  Answers, exited, killed, is_success, waited, exec_or_exit, do_exec, do_exec_redirect, do_exec_iff,
}
use embedded_linux.Programs.Writer.{writer_main, holds, flushed}

abbrev unwaited : Answers
unwaited = record {
  fork = true;
  opens = true;
  dup2 = true;
  execv = true;
  program = killed 9;
  waitpid = false;
}

do_exec_iff_example : (do_exec unwaited ≡ true) ↔ (
    (unwaited.fork ≡ true)
    × ((unwaited.waitpid ≡ false)
        ⊎ ((unwaited.waitpid ≡ true) × (unwaited.execv ≡ true) × (unwaited.program ≡ exited 0))))
do_exec_iff_example = do_exec_iff unwaited

unwaited-true : do_exec unwaited ≡ true
unfolding do_exec waited exec_or_exit is_success
unwaited-true = refl

unwaited-redirected : do_exec_redirect unwaited ≡ false
unfolding do_exec_redirect
unwaited-redirected = refl

-- The disk is full when the stream is closed.
full_disk :
    writer_main
      (record { fopen = true; fprintf = true; fclose = false; reached = codes "" })
      3
      (codes "hello")
    ≡ record { open_streams = 0; file = holds (codes ""); past_end = false; code = 0 }
unfolding writer_main flushed
full_disk = refl
