-- ===== src/Npm/Tarball/Accepted.antt =====
-- What a download that returns has stored, and what one that raises leaves.
use npm_sentinel.Base.{
  ℕ, ◌+◌, ◌≤◌, ◌<◌, String, ◌≡◌, refl, sym, ap, ◌∙◌, ◌⊎◌, inl, inr, true, Option, none, some, List,
  [], ◌∷◌, ◌++◌, arith, ltb, leb, Bool-cases, length, length-append,
}
use mathlib.Core.List.{append-nil, append_assoc}
use npm_sentinel.Core.Exceptions.{Result, ok, err, ◌>>=◌, >>=-eq-ok, raise_if}
use npm_sentinel.Npm.Tarball.{
  Bytes, Url, End, complete, timed_out, http_failed, disk_failed, Answer, TarballDownloader,
  IntegrityCheck, build_integrity_check, validate_url, ended, write_chunks, same_bytes, verify,
  written, write_stream_to_file, download, with_check, with_url,
}
use npm_sentinel.Npm.Tarball.Integrity.{
  IsHttp, validate_url-IsHttp, Asked, build_integrity_check-Asked,
}

unfoldable pub concat : List Bytes → Bytes
concat [] = []
concat (c ∷ cs) = c ++ concat cs

same_bytes_sound : (a b : Bytes) → same_bytes a b ≡ true → a ≡ b
unfolding same_bytes
same_bytes_sound [] [] h = refl
same_bytes_sound [] (c ∷ cs) h = cc
same_bytes_sound (b ∷ bs) [] h = cc
same_bytes_sound (b ∷ bs) (c ∷ cs) h = ground (arith, same_bytes_sound bs cs)

ended_lem : (e : End) (w : Bytes) {r : Bytes} → ended e w ≡ ok r → (e ≡ complete) × (w ≡ r)
ended_lem complete w h = (refl, cc h)
ended_lem timed_out w h = cc
ended_lem http_failed w h = cc
ended_lem disk_failed w h = cc

-- The chunks that are written, and their number of bytes.
write_chunks_lem :
    (max_bytes : ℕ) (e : End) (before : Bytes) (chunks : List Bytes) {content : Bytes}
    → length before ≤ max_bytes
    → write_chunks max_bytes e before chunks ≡ ok content
    → (e ≡ complete) × (content ≡ before ++ concat chunks) × (length content ≤ max_bytes)
unfolding write_chunks concat
write_chunks_lem max_bytes e before [] {content} h k =
    let (done, same) = ended_lem e before {r = content} k in
    (done, sym same ∙ sym (append-nil before), rw (← same) h)
write_chunks_lem max_bytes e before (chunk ∷ chunks) {content} h k =
    let (_, fits, k₁) =
      >>=-eq-ok (raise_if (ltb max_bytes (length before + length chunk)) _ _) _ k in
    let (done, same, bound) =
      write_chunks_lem max_bytes e (before ++ chunk) chunks {content = content}
        (ground (arith, length-append before chunk)) k₁ in
    (done, same ∙ append_assoc before chunk (concat chunks), bound)

module _ (b64decode : String → Option Bytes) (digest : String → Bytes → Bytes)
    (downloader : TarballDownloader) where
  -- The content has the digest that is expected of it, if one is.
  abbrev pub Verified : Option IntegrityCheck → Bytes → Type 0
  Verified none content = Unit
  Verified (some check) content = digest check.algorithm content ≡ check.expected_digest

  verify_lem :
      (check : Option IntegrityCheck) (content : Bytes) {r : Bytes}
      → verify b64decode digest downloader check content ≡ ok r
      → (content ≡ r) × Verified check content
  unfolding verify
  verify_lem none content h = (cc h, tt)
  verify_lem (some check) content h =
      elim (Bool-cases (same_bytes (digest check.algorithm content) check.expected_digest)) [
        | inl same ↦ (
          ground arith,
          same_bytes_sound (digest check.algorithm content) check.expected_digest same,
        )
        | inr other ↦ ground arith
      ]

  -- A return: the whole answer is stored, within the limit and with the digest that the integrity text asks for. A raise: there
  -- is no file, or what was there before.
  abbrev pub Stored :
      Url → Option String → Answer → Option Bytes → Result (Unit {0}) × Option Bytes → Type 0
  Stored url integrity answer before (ok _, file) =
      (check : Option IntegrityCheck) × IsHttp url
      × (build_integrity_check b64decode integrity ≡ ok check)
      × Asked b64decode integrity check
      × (answer.status_code < 400)
      × (answer.end ≡ complete)
      × (file ≡ some (concat answer.chunks))
      × (length (concat answer.chunks) ≤ downloader.max_bytes)
      × Verified check (concat answer.chunks)
  Stored url integrity answer before (err e, file) = (file ≡ none) ⊎ (file ≡ before)

  Stored-written :
      (url : Url) (integrity : Option String) (answer : Answer) (before : Option Bytes)
      (check : Option IntegrityCheck)
      → validate_url url ≡ ok tt
      → build_integrity_check b64decode integrity ≡ ok check
      → answer.status_code < 400
      → (r : Result Bytes)
      → (do
        content ← write_chunks downloader.max_bytes answer.end [] answer.chunks
        verify b64decode digest downloader check content)
        ≡ r
      → Stored url integrity answer before (written r)
  unfolding written
  Stored-written url integrity answer before check valid checked low (err e) h = inl refl
  Stored-written url integrity answer before check valid checked low (ok content) h =
      let (stream, wrote, h₁) =
        >>=-eq-ok (write_chunks downloader.max_bytes answer.end [] answer.chunks) _ h in
      let (done, whole, bound) =
        write_chunks_lem downloader.max_bytes answer.end [] answer.chunks {content = stream}
          (omega arith) wrote in
      let (same, verified) = verify_lem check stream {r = content} h₁ in
      (
        check,
        validate_url-IsHttp url valid,
        checked,
        build_integrity_check-Asked b64decode integrity checked,
        low,
        done,
        ap some (sym same ∙ whole),
        rw (← whole) bound,
        rw (← whole) verified,
      )

  Stored-write_stream :
      (url : Url) (integrity : Option String) (answer : Answer) (before : Option Bytes)
      (check : Option IntegrityCheck)
      → validate_url url ≡ ok tt
      → build_integrity_check b64decode integrity ≡ ok check
      → Stored url integrity answer before
          (write_stream_to_file b64decode digest downloader check answer before)
  unfolding write_stream_to_file
  Stored-write_stream url integrity answer before check valid checked =
      elim (Bool-cases (leb 400 answer.status_code)) [
        | inl refused ↦ rw (refused, write_stream_to_file) (inr refl)
        | inr fine ↦
            rw (fine, write_stream_to_file)
              (Stored-written url integrity answer before check valid checked (ground arith) _ refl)
      ]

  Stored-with_check :
      (url : Url) (integrity : Option String) (answer : Answer) (before : Option Bytes)
      → validate_url url ≡ ok tt
      → (r : Result (Option IntegrityCheck)) → build_integrity_check b64decode integrity ≡ r
      → Stored url integrity answer before (with_check b64decode digest downloader answer before r)
  Stored-with_check url integrity answer before valid (ok check) checked =
      Stored-write_stream url integrity answer before check valid checked
  Stored-with_check url integrity answer before valid (err e) checked = inr refl

  Stored-with_url :
      (url : Url) (integrity : Option String) (answer : Answer) (before : Option Bytes)
      (r : Result (Unit {0}))
      → validate_url url ≡ r
      → Stored url integrity answer before
          (with_url b64decode digest downloader integrity answer before r)
  Stored-with_url url integrity answer before (ok _) valid =
      Stored-with_check url integrity answer before valid
        (build_integrity_check b64decode integrity) refl
  Stored-with_url url integrity answer before (err e) valid = inr refl

  -- A download that returns had a URL of the scheme http or https with a host, and a status below 400; the stream came
  -- to its end, and the file is its chunks put together and within the limit. If the integrity text is absent or empty,
  -- no digest is asked for; otherwise a word of it is one of four algorithms, a dash and a text that decodes to the
  -- content's digest by that algorithm, and no word before it starts with one of the four and a dash. A download that
  -- raises leaves no file, or the one that was there before.
  pub download-Stored :
      (url : Url) (integrity : Option String) (answer : Answer) (before : Option Bytes)
      → Stored url integrity answer before
          (download b64decode digest downloader url integrity answer before)
  unfolding download
  download-Stored url integrity answer before =
      Stored-with_url url integrity answer before (validate_url url) refl
