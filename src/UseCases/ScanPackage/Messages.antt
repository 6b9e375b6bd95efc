-- ===== src/UseCases/ScanPackage/Messages.antt =====
-- `_safe_error_message` of app/application/use_cases/scan_package.py
use npm_sentinel.Base.{
  ℕ, zero, suc, ◌≤◌, String, ◌≡◌, refl, ap, inl, inr, arith, ltb, if◌then◌else◌, Bool-cases, count,
  append, is_empty, strip, prefix,
}
use text.Mathlib.TextLemmas.{
  length-append as count-append, length-cons as count-cons, length-nil as count-nil, cons-append,
}
use npm_sentinel.Core.Exceptions.{ExceptionClass, Exception}
use npm_sentinel.UseCases.ScanPackage.Run.{safe_error_message}

count-prefix : (n : ℕ) (s : String) → count (prefix n s) ≤ n
unfolding prefix
count-prefix zero s = rw count-nil (omega arith)
count-prefix (suc n) String.[] = rw count-nil (omega arith)
count-prefix (suc n) (String.◌∷◌ c s) = omega (arith, count-cons c (prefix n s), count-prefix n s)

-- The message before it is cut off: that of the exception without white space around it, or the name of its
-- class where nothing is left.
abbrev pub whole_message : (ExceptionClass → String) → Exception → String
whole_message class_name e =
    if is_empty (strip e.message) then class_name e.class else strip e.message

-- The start of a text is not changed by what is put behind it.
prefix-append-prefix :
    (n : ℕ) (s t : String) → n ≤ count s → prefix n (append (prefix n s) t) ≡ prefix n s
unfolding prefix
prefix-append-prefix zero s t h = refl
prefix-append-prefix (suc n) String.[] t h = absurd (omega (arith, h, count-nil))
prefix-append-prefix (suc n) (String.◌∷◌ c s) t h =
    rw (cons-append c (prefix n s) t)
      (ap (String.◌∷◌ c) (prefix-append-prefix n s t (omega (arith, h, count-cons c s))))

-- What is stored of an exception has at most 503 characters, and starts with the same 500 characters as its
-- whole message.
pub safe_error_message-bounded :
    (class_name : ExceptionClass → String) (e : Exception)
    → (count (safe_error_message class_name e) ≤ 503)
      × (prefix 500 (safe_error_message class_name e) ≡ prefix 500 (whole_message class_name e))
unfolding safe_error_message
safe_error_message-bounded class_name e =
    let m = whole_message class_name e in
    elim (Bool-cases (ltb 500 (count m))) [
      | inl long ↦ (
        rw (long, safe_error_message, count-append (prefix 500 m) "...")
            (omega (arith, count-prefix 500 m)),
        rw (long, safe_error_message) (prefix-append-prefix 500 m "..." (ground (arith, long))),
      )
      | inr short ↦ (
        rw (short, safe_error_message) (ground (arith, short)),
        rw (short, safe_error_message) refl,
      )
    ]
