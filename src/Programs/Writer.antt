-- ===== src/Programs/Writer.antt =====
-- The writer (finder-app/writer.c).
use embedded_linux.Common.{
  ℕ, suc, ◌-◌, ◌≡◌, ◌↔◌, inl, inr, Bool-cases, refl, Bool, true, not, ltb, ◌==◌, ==_iff, arith,
  if◌then◌else◌,
}
use embedded_linux.Search.{Str}

-- Which calls are granted, and what the file holds when `fprintf` or `fclose` has failed: stdio may
-- keep the bytes until `fclose`.
pub record Answers : Type 0 where
  pub fopen : Bool
  pub fprintf : Bool
  pub fclose : Bool
  pub reached : Str

-- What the file holds: as before, or this string.
pub data Content : Type 0 where
  untouched : Content
  holds : Str → Content

-- The streams that are open, the file, whether `argv` was read past its end, and the exit code.
pub record Exit : Type 0 where
  pub open_streams : ℕ
  pub file : Content
  pub past_end : Bool
  pub code : ℕ

-- What reaches the file from a granted `fprintf` once `fclose` has returned.
unfoldable pub flushed : Answers → Str → Content
flushed a s = holds (if a.fclose then s else a.reached)

-- `main(argc, argv)`; `argv[2]` is read before `argc` is tested, and `argv` ends behind `argv[argc]`.
unfoldable pub writer_main : Answers → ℕ → Str → Exit
writer_main a argc write_string =
    let past_end = ltb argc 2 in
    if not (argc == 3)
    then record { open_streams = 0; file = untouched; past_end = past_end; code = 1 }
    else if not a.fopen
    then record { open_streams = 0; file = untouched; past_end = past_end; code = 1 }
    else if not a.fprintf
    then record { open_streams = suc 0 - 1; file = holds a.reached; past_end = past_end; code = 1 }
    else record {
      open_streams = suc 0 - 1;
      file = flushed a write_string;
      past_end = past_end;
      code = 0;
    }

-- The writer leaves no stream open. It exits with 0 exactly if it has two arguments and opening and
-- printing are granted; the file then holds the string if `fclose` is granted too, and else what
-- reached it before `fclose` failed.
pub writer_main_lem :
    (a : Answers) (argc : ℕ) (s : Str)
    → let x = writer_main a argc s in
      (x.open_streams ≡ 0)
      × ((x.code ≡ 0) ↔ ((argc ≡ 3) × (a.fopen ≡ true) × (a.fprintf ≡ true)))
      × (x.code ≡ 0 → x.file ≡ holds (if a.fclose then s else a.reached))
unfolding writer_main flushed
writer_main_lem a argc s = elim (Bool-cases (argc == 3)) [
  | inr other ↦
      rw other
        (refl, (λ h. absurd (omega (arith, h)), λ h. ground arith), λ h. absurd (omega (arith, h)))
  | inl three ↦ elim (Bool-cases a.fopen) [
    | inr closed ↦
        rw (three, closed)
          (refl, (λ h. absurd (omega (arith, h)), λ h. absurd (cc)), λ h. absurd (omega (arith, h)))
    | inl opened ↦ elim (Bool-cases a.fprintf) [
      | inr failed ↦
          rw (three, opened, failed)
            (
              omega arith,
              (λ h. absurd (omega (arith, h)), λ h. absurd (cc)),
              λ h. absurd (omega (arith, h)),
            )
      | inl printed ↦
          rw (three, opened, printed)
            (omega arith, (λ h. ((==_iff argc 3).0 three, refl, refl), λ h. refl), λ h. refl)
    ]
  ]
]
