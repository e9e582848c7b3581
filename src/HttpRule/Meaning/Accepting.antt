-- ===== src/HttpRule/Meaning/Accepting.antt =====
-- `NewPattern` (runtime.go) accepts what `Compile` (compile.go) makes of a template.
use realmicro.Common.{
  ℕ, ◌+◌, ◌-◌, ◌≤◌, ◌<◌, Text, List, [], ◌∷◌, ◌++◌, Bool, true, false, ◌||◌, ◌==◌, ltb, none, some,
  teq, length, get_elem?, if◌then◌else◌, All, ℤ, pos, arith, ◌≡◌, ◌≢◌, refl, sym, ap, ◌∙◌,
  append_assoc, append-nil, subst,
}
use realmicro.HttpRule.Types.{
  Segments, nil, cons, wildcard, deep_wildcard, literal, variable, Template, count,
}
use realmicro.HttpRule.Compiler.{
  OpCode, opcode_int, op_push, op_lit_push, op_push_m, op_concat_n, op_capture, Op, op_of,
  compile_segments, Emit, emit_all, nothing_emitted, compile,
}
use realmicro.HttpRule.Runtime.{
  Scan, typed, scan_push, scan_push_m, scan_lit, scan_concat, scan_capture, scan_op, scan_ops,
  no_scan, new_pattern,
}
use realmicro.HttpRule.Meaning.{has_deep, IsNonempty, IsFlat, IsPlain}
use realmicro.HttpRule.Meaning.Encoding.{
  operand_of, encode, IsPooled, place, emit_all-encode, encode-append,
}
use realmicro.HttpRule.Meaning.Runnable.{IsRunnable, texts, flat-texts, or_regroup, get_elem?-leb}
use realmicro.HttpRule.Meaning.Plain.{nonempty, IsFlat→IsPlain, All-parts}

module _ (pool : List Text) (index : Text → ℕ) where
  scan_ops-some :
      (c n : ℤ) (ops : List ℤ) (s s' : Scan)
      → scan_op pool c n s ≡ some s'
      → scan_ops pool (c ∷ (n ∷ ops)) s ≡ scan_ops pool ops s'
  unfolding scan_ops
  scan_ops-some c n ops s s' e = rw (e, scan_ops) refl

  record Goes (segs : Segments) (rest : List ℤ) (s : Scan) : Type 0 where
    after : Scan
    scan_eq :
        scan_ops pool (encode index (compile_segments segs) ++ rest) s ≡ scan_ops pool rest after
    stack_eq : after.stack ≡ s.stack + texts segs
    seen_eq : after.push_m_seen ≡ (s.push_m_seen || has_deep segs)

  unfoldable AllGo : Segments → Type 0
  AllGo segs =
      (rest : List ℤ) (s : Scan)
      → IsPlain segs
      → IsRunnable segs
      → All (IsPooled pool index) (compile_segments segs)
      → (s.push_m_seen ≡ true → has_deep segs ≡ false)
      → Goes segs rest s

  -- One operation that leaves a text, and what is behind it.
  step-Goes :
      (segs r : Segments) (c : OpCode) (x : Text) (rest : List ℤ) (s s' : Scan)
      → compile_segments segs ≡ op_of c x 0 ∷ compile_segments r
      → texts segs ≡ 1 + texts r
      → scan_op pool (pos (opcode_int c)) (pos (operand_of index (op_of c x 0))) s ≡ some s'
      → s'.stack ≡ s.stack + 1
      → (s'.push_m_seen || has_deep r) ≡ (s.push_m_seen || has_deep segs)
      → Goes r rest s'
      → Goes segs rest s
  step-Goes segs r c x rest s s' e t scans up seen g = record {
    after = g.after;
    scan_eq =
        ap (λ z. scan_ops pool (encode index z ++ rest) s) e
        ∙ scan_ops-some _ _ _ s s' scans
        ∙ g.scan_eq;
    stack_eq = omega (arith, g.stack_eq, t, up);
    seen_eq = g.seen_eq ∙ seen;
  }

  pushed : OpCode → ℕ → Scan → Scan
  pushed c n s = typed c n (record s {
    tail_len = if s.push_m_seen then s.tail_len + 1 else s.tail_len;
    stack = s.stack + 1;
  })

  wildcard-Goes : (r : Segments) → AllGo r → AllGo (cons wildcard r)
  unfolding AllGo
  wildcard-Goes r ih rest s plain run pooled once =
      step-Goes (cons wildcard r) r op_push [] rest s (pushed op_push 0 s)
        (unfold compile_segments in refl) (unfold texts in refl)
        (unfold scan_op scan_push pushed in refl) (unfold pushed in refl)
        (unfold pushed has_deep in refl)
        (ih rest (pushed op_push 0 s) (unfold IsPlain in plain) (unfold IsRunnable in run)
          (unfold compile_segments in pooled.1) (unfold pushed has_deep in once))

  literal-Goes : (l : Text) (r : Segments) → AllGo r → AllGo (cons (literal l) r)
  unfolding AllGo
  literal-Goes l r ih rest s plain run pooled once =
      step-Goes (cons (literal l) r) r op_lit_push l rest s (pushed op_lit_push place_of s)
        (unfold compile_segments in refl) (unfold texts in refl) scans (unfold pushed in refl)
        (unfold pushed has_deep in refl)
        (ih rest (pushed op_lit_push place_of s) parts.1 (unfold IsRunnable in run) pooled_parts.1
          (unfold pushed has_deep in once))
    where
      place_of : ℕ
      place_of = operand_of index (op_of op_lit_push l 0)

      parts : IsNonempty l × IsPlain r
      parts = unfold IsPlain in plain

      pooled_parts :
          IsPooled pool index (op_of op_lit_push l 0)
          × All (IsPooled pool index) (compile_segments r)
      pooled_parts = unfold compile_segments in pooled

      found : get_elem? pool place_of ≡ some l
      found = rw (nonempty l parts.0) (pooled_parts.0 (nonempty l parts.0))

      scans : scan_op pool (pos 2) (pos place_of) s ≡ some (pushed op_lit_push place_of s)
      scans =
          unfold scan_op scan_lit scan_push pushed in rw (get_elem?-leb pool place_of l found) refl

  deep_scan : Scan → Scan
  deep_scan s = typed op_push_m 0 (record s { push_m_seen = true; stack = s.stack + 1 })

  deep-Goes : (r : Segments) → AllGo r → AllGo (cons deep_wildcard r)
  unfolding AllGo
  deep-Goes r ih rest s plain run pooled once =
      step-Goes (cons deep_wildcard r) r op_push_m [] rest s (deep_scan s)
        (unfold compile_segments in refl) (unfold texts in refl) scans (unfold deep_scan in refl)
        seen
        (ih rest (deep_scan s) (unfold IsPlain in plain) runs.1
          (unfold compile_segments in pooled.1) (λ _. runs.0))
    where
      runs : (has_deep r ≡ false) × IsRunnable r
      runs = unfold IsRunnable in run

      fresh : s.push_m_seen ≡ false
      fresh = unfold has_deep in ground (arith, once)

      scans :
          scan_op pool (pos 3) (pos (operand_of index (op_of op_push_m [] 0))) s
          ≡ some (deep_scan s)
      scans = unfold scan_op scan_push_m deep_scan in rw fresh refl

      seen :
          ((deep_scan s).push_m_seen || has_deep r)
          ≡ (s.push_m_seen || has_deep (cons deep_wildcard r))
      seen = unfold deep_scan has_deep in rw fresh refl

  concat_scan : ℕ → Scan → Scan
  concat_scan n s = typed op_concat_n n (record s { stack = s.stack - n + 1 })

  concat_scans :
      (n : ℕ) (s : Scan)
      → 0 < n
      → n ≤ s.stack
      → scan_op pool (pos 4) (pos n) s ≡ some (concat_scan n s)
  concat_scans n s some_text enough =
      unfold scan_op scan_concat concat_scan in (rw (positive, within) refl)
    where
      positive : (n == 0) ≡ false
      positive = ground (arith, some_text)

      within : ltb s.stack n ≡ false
      within = ground (arith, enough)

  capture_scan : Text → Scan → Scan
  capture_scan x s =
      typed op_capture (length s.vars) (record s { vars = s.vars ++ (x ∷ []); stack = s.stack - 1 })

  capture_scans :
      (n : ℕ) (x : Text) (s : Scan)
      → get_elem? pool n ≡ some x
      → 0 < s.stack
      → scan_op pool (pos 5) (pos n) s ≡ some (capture_scan x s)
  capture_scans n x s found some_text =
      unfold scan_op scan_capture capture_scan in (rw (found, positive) refl)
    where
      positive : (s.stack == 0) ≡ false
      positive = ground (arith, some_text)

  operand_plain : (n : ℕ) → operand_of index (op_of op_concat_n [] n) ≡ n
  unfolding teq
  operand_plain n = refl

  -- The two operations that close a variable.
  closing_scans :
      (path : Text) (n : ℕ) (more : List ℤ) (s : Scan)
      → 0 < n
      → n ≤ s.stack
      → get_elem? pool (operand_of index (op_of op_capture path 0)) ≡ some path
      → scan_ops pool
          (encode index (op_of op_concat_n [] n ∷ (op_of op_capture path 0 ∷ [])) ++ more)
          s
        ≡ scan_ops pool more (capture_scan path (concat_scan n s))
  closing_scans path n more s some_text enough found =
      scan_ops-some _ _ _ s (concat_scan n s) (
        ap (λ j. scan_op pool (pos 4) (pos j) s) (operand_plain n)
        ∙ concat_scans n s some_text enough)
      ∙ scan_ops-some _ _ more (concat_scan n s) (capture_scan path (concat_scan n s)) (
          capture_scans (operand_of index (op_of op_capture path 0)) path (concat_scan n s) found
            (unfold concat_scan in omega arith))

  variable-Goes :
      (path : Text) (segs r : Segments) → AllGo segs → AllGo r → AllGo (cons (variable path segs) r)
  unfolding AllGo
  variable-Goes path segs r ih_segs ih rest s plain run pooled once = record {
    after = g3.after;
    scan_eq =
        ap (λ z. scan_ops pool z s) encoded
        ∙ g1.scan_eq
        ∙ closing_scans path (count segs) behind_codes s1 runs.0 (omega (arith, stacked)) found
        ∙ g3.scan_eq;
    stack_eq = g3.stack_eq ∙ stack_then;
    seen_eq = g3.seen_eq ∙ seen_last;
  }
    where
      closing : List Op
      closing = op_of op_concat_n [] (count segs) ∷ (op_of op_capture path 0 ∷ [])

      whole :
          compile_segments (cons (variable path segs) r)
          ≡ (compile_segments segs ++ closing) ++ compile_segments r
      whole = unfold compile_segments in refl

      runs :
          (0 < count segs)
          × (has_deep segs ≡ true → has_deep r ≡ false)
          × IsRunnable segs
          × IsRunnable r
      runs = unfold IsRunnable in run

      parts : IsNonempty path × IsFlat segs × IsPlain r
      parts = unfold IsPlain in plain

      once_more : s.push_m_seen ≡ true → (has_deep segs || has_deep r) ≡ false
      once_more = unfold has_deep in once

      pooled_parts :
          All (IsPooled pool index) (compile_segments segs ++ closing)
          × All (IsPooled pool index) (compile_segments r)
      pooled_parts =
          All-parts (IsPooled pool index) (compile_segments segs ++ closing) (compile_segments r)
            (subst (All (IsPooled pool index)) whole pooled)

      pooled_front :
          All (IsPooled pool index) (compile_segments segs) × All (IsPooled pool index) closing
      pooled_front = All-parts (IsPooled pool index) (compile_segments segs) closing pooled_parts.0

      behind_codes : List ℤ
      behind_codes = encode index (compile_segments r) ++ rest

      encoded :
          encode index (compile_segments (cons (variable path segs) r)) ++ rest
          ≡ encode index (compile_segments segs) ++ (encode index closing ++ behind_codes)
      encoded =
          ap (λ z. encode index z ++ rest) whole
          ∙ ap (λ z. z ++ rest)
              (encode-append index (compile_segments segs ++ closing) (compile_segments r))
          ∙ append_assoc (encode index (compile_segments segs ++ closing))
              (encode index (compile_segments r)) rest
          ∙ ap (λ z. z ++ behind_codes) (encode-append index (compile_segments segs) closing)
          ∙ append_assoc (encode index (compile_segments segs)) (encode index closing) behind_codes

      g1 : Goes segs (encode index closing ++ behind_codes) s
      g1 =
          ih_segs (encode index closing ++ behind_codes) s (IsFlat→IsPlain segs parts.1) runs.2
            pooled_front.0 (λ e. ground (arith, once_more e))

      s1 : Scan
      s1 = g1.after

      s2 : Scan
      s2 = concat_scan (count segs) s1

      s3 : Scan
      s3 = capture_scan path s2

      stacked : s1.stack ≡ s.stack + count segs
      stacked = g1.stack_eq ∙ ap (λ k. s.stack + k) (flat-texts segs parts.1)

      found : get_elem? pool (operand_of index (op_of op_capture path 0)) ≡ some path
      found = rw (nonempty path parts.0) (pooled_front.1.1.0 (nonempty path parts.0))

      seen_then : s3.push_m_seen ≡ (s.push_m_seen || has_deep segs)
      seen_then = unfold capture_scan concat_scan in g1.seen_eq

      stack_then : s3.stack + texts r ≡ s.stack + texts (cons (variable path segs) r)
      stack_then = unfold capture_scan concat_scan texts in omega (arith, stacked)

      seen_last :
          (s3.push_m_seen || has_deep r) ≡ (s.push_m_seen || has_deep (cons (variable path segs) r))
      seen_last =
          ap (λ b. b || has_deep r) seen_then
          ∙ (unfold has_deep in or_regroup s.push_m_seen (has_deep segs) (has_deep r))

      g3 : Goes r rest s3
      g3 =
          ih rest s3 parts.2 runs.3 pooled_parts.1
            (λ e. ground (arith, once_more, runs.1, e, seen_then))

  nil-Goes : AllGo nil
  unfolding AllGo compile_segments texts has_deep
  nil-Goes rest s plain run pooled once = record {
    after = s;
    scan_eq = refl;
    stack_eq = omega arith;
    seen_eq = ground arith;
  }

  all_go : (segs : Segments) → AllGo segs
  all_go nil = nil-Goes
  all_go (cons wildcard r) = wildcard-Goes r (all_go r)
  all_go (cons (literal l) r) = literal-Goes l r (all_go r)
  all_go (cons deep_wildcard r) = deep-Goes r (all_go r)
  all_go (cons (variable path segs) r) = variable-Goes path segs r (all_go segs) (all_go r)

-- `NewPattern` accepts every compiled template with no empty literal or path, at most one deep
-- wildcard, and some segments but no variable inside of each variable.
pub new_pattern-compile_ne_none :
    (t : Template) (colon : Bool)
    → IsPlain t.segments
    → IsRunnable t.segments
    → new_pattern 1 (compile t).op_codes (compile t).pool (compile t).verb colon ≢ none
unfolding new_pattern compile
new_pattern-compile_ne_none t colon plain run =
    rw (scans, new_pattern) (λ h. absurd (ground (arith, h)))
  where
    os : List Op
    os = compile_segments t.segments

    e : Emit
    e = emit_all os nothing_emitted

    fresh : no_scan.push_m_seen ≡ true → has_deep t.segments ≡ false
    fresh h = absurd (ground (arith, h))

    goes : Goes e.pool (place e.consts) t.segments [] no_scan
    goes =
        unfold AllGo in
        all_go e.pool (place e.consts) t.segments [] no_scan plain run (emit_all-encode os).1 fresh

    scans : scan_ops e.pool e.ops no_scan ≡ some goes.after
    scans =
        ap (λ z. scan_ops e.pool z no_scan)
          ((emit_all-encode os).0 ∙ sym (append-nil (encode (place e.consts) os)))
        ∙ goes.scan_eq
