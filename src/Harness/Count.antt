-- ===== src/Harness/Count.antt =====
-- The harnesses wait for as many children as they fork.
use linux_scheduler_comparis.Base.{◌≡◌, ◌∙◌, ap, sym, arith, List, length, codes}
use linux_scheduler_comparis.Base.Int.{ℤ}
use linux_scheduler_comparis.Base.Outcome.{Outcome, done, ◌>>=◌, >>=-eq-done, done-injective}
use linux_scheduler_comparis.Process.{Child, System, IsLawful, TestRun}
use linux_scheduler_comparis.Process.Count.{NeverFails, KeepsCount, length-fork, length-wait}
use linux_scheduler_comparis.Harness.{
  ffmpeg, tar, gunzip, timed, below, remove_if_exists, remove_all_if_directory, run_ffmpeg,
  run_extract, run_gzip,
}
use linux_scheduler_comparis.Harness.Laws.{
  remove_if_exists-children, remove_all_if_directory-children,
}

module _ (S : System) (children : S.State → List ℤ) (L : IsLawful S children)
    (F : NeverFails S children) where
  timed-length : (c : Child) (s : S.State) → length (children (timed S c s).1) ≡ length (children s)
  unfolding timed
  timed-length c s =
      let s1 = (S.now s).1 in
      let s2 = (S.fork c s1).1 in
      let forked = length-fork S children L F c s1 in
      omega (
        arith,
        ap length (L.children-now s),
        forked,
        length-wait S children L F s2 (omega (arith, forked)),
        ap length (L.children-now (S.wait s2).1),
      )

  framed :
      (prepare : Outcome S.State) (c : Child) (cleanup : S.State → Outcome S.State) (s : S.State)
      (r : TestRun × S.State)
      → ((s1 : S.State) → prepare ≡ done s1 → children s1 ≡ children s)
      → ((s2 s3 : S.State) → cleanup s2 ≡ done s3 → children s3 ≡ children s2)
      → (prepare >>= λ s1.
          ◌>>=◌ {B = TestRun × S.State}
            (cleanup (timed S c s1).1)
            (λ s3. done ((timed S c s1).0, s3)))
        ≡ done r
      → length (children r.1) ≡ length (children s)
  framed prepare c cleanup s r before after h =
      let (s1, prepared, rest) = >>=-eq-done prepare _ h in
      let (s3, cleaned, last) = >>=-eq-done (cleanup (timed S c s1).1) _ rest in
      ap (λ (q : TestRun × S.State). length (children q.1)) (sym (done-injective last))
      ∙ (ap length (after (timed S c s1).1 s3 cleaned)
          ∙ (timed-length c s1 ∙ ap length (before s1 prepared)))

  pub run_gzip-KeepsCount : KeepsCount S children (run_gzip S)
  unfolding run_gzip
  run_gzip-KeepsCount pin s r h =
      framed (remove_if_exists S (below S (codes "gcc-13.2.0.tar") s) s) (gunzip pin)
        (remove_if_exists S (below S (codes "gcc-13.2.0.tar") s)) s r
        (λ s1. remove_if_exists-children S L _ s) (λ s2 s3. remove_if_exists-children S L _ s2) h

  pub run_extract-KeepsCount : KeepsCount S children (run_extract S)
  unfolding run_extract
  run_extract-KeepsCount pin s r h =
      framed (remove_all_if_directory S (below S (codes "gcc-13.2.0") s) s) (tar pin)
        (remove_all_if_directory S (below S (codes "gcc-13.2.0") s)) s r
        (λ s1. remove_all_if_directory-children S L _ s)
        (λ s2 s3. remove_all_if_directory-children S L _ s2) h

  pub run_ffmpeg-KeepsCount : KeepsCount S children (run_ffmpeg S)
  unfolding run_ffmpeg
  run_ffmpeg-KeepsCount pin s r h =
      framed (S.create_directories (below S (codes "images") s) s) (ffmpeg pin)
        (λ s2. S.remove_all (below S (codes "images") s2) s2) s r
        (λ s1. L.children-create_directories _ s) (λ s2 s3. L.children-remove_all _ s2) h
