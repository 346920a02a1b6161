-- ===== src/System/Sources.antt =====
-- `Collect` of internal/system/system.go: which values are missing, and the warnings about them.
use lts_agent.Base.{
  ◌≡◌, refl, sym, ◌∙◌, Bool, true, false, ◌&&◌, ◌||◌, Bytes, List, [], ◌∷◌, ◌++◌, Option, none,
  some, lit, same, is_empty, arith, Bool-cases, Option-cases, inl, inr,
}
use lts_agent.Go.Errors.{Result, ok, err, Result-cases}
use lts_agent.Go.Maps.{Map}
use lts_agent.Inventory.{Warning}
use lts_agent.System.OsRelease.{parse_assignments}
use lts_agent.System.{
  Dependencies, Collector, name_of, trimmed, normalize_architecture, zone_of, named_zone,
  linked_zone, located_zone, collect_os, collect_kernel, fall_back, resolve, collect_timezone,
  value_of, warnings_of, architecture_of, collect_system, default_os_release_path,
  default_timezone_path, default_localtime_path,
}

-- A warning of the source is there.
abbrev pub warned : Bytes → List Warning → Bool
warned source [] = false
warned source (w ∷ ws) = same w.source source || warned source ws

abbrev failed : Result Bytes → Bool
failed (ok s) = false
failed (err e) = true

-- A success is never the empty string.
abbrev Filled : Result Bytes → Type 0
Filled r = is_empty (value_of r) ≡ failed r

warned-append :
    (source : Bytes) (xs ys : List Warning)
    → warned source (xs ++ ys) ≡ (warned source xs || warned source ys)
warned-append source [] ys = refl
warned-append source (x ∷ xs) ys = ground (arith, warned-append source xs ys)

warned-warnings_of :
    (source from : Bytes) (r : Result Bytes)
    → warned source (warnings_of from r) ≡ (same from source && failed r)
warned-warnings_of source from (ok s) = ground arith
warned-warnings_of source from (err e) = ground arith

name_of-Filled : (p : Map × List Bytes) → Filled (name_of p)
unfolding name_of
name_of-Filled (values, warnings) = ground arith

named_zone-filled :
    (cut : Option (Bytes × Bytes)) (zone : Bytes)
    → named_zone cut ≡ some zone
    → is_empty zone ≡ false
unfolding named_zone
named_zone-filled none zone h = cc
named_zone-filled (some (before, name)) zone h = ground arith

linked_zone-filled :
    (link : Result Bytes) (zone : Bytes) → linked_zone link ≡ some zone → is_empty zone ≡ false
unfolding linked_zone zone_of
linked_zone-filled (err e) zone h = cc
linked_zone-filled (ok target) zone h = named_zone-filled _ zone h

located_zone-filled :
    (current : Option Bytes) (zone : Bytes)
    → located_zone current ≡ some zone
    → is_empty zone ≡ false
unfolding located_zone
located_zone-filled none zone h = cc
located_zone-filled (some name) zone h = ground arith

module _ {W : Type 0} (deps : Dependencies W) (w : W) where
  collect_os-Filled : Filled (collect_os deps w).0
  unfolding collect_os
  collect_os-Filled = elim (Result-cases (deps.read_file default_os_release_path w).0) [
    | inl (s, e) ↦ rw (e, collect_os) (name_of-Filled (parse_assignments s))
    | inr (f, e) ↦ rw (e, collect_os) refl
  ]

  collect_kernel-Filled : Filled (collect_kernel deps w).0
  unfolding collect_kernel
  collect_kernel-Filled = ground arith

  fall_back-Filled : (file link : Result Bytes) → Filled (fall_back deps file link w).0
  unfolding fall_back
  fall_back-Filled file link = elim (Option-cases (located_zone (deps.location w).0)) [
    | inl e ↦ rw (e, fall_back) refl
    | inr (zone, e) ↦ rw (e, fall_back) (located_zone-filled (deps.location w).0 zone e)
  ]

  resolve-Filled : (file link : Result Bytes) → Filled (resolve deps file link w).0
  unfolding resolve
  resolve-Filled file link = elim (Option-cases (linked_zone link)) [
    | inl e ↦ rw (e, resolve) (fall_back-Filled file link)
    | inr (zone, e) ↦ rw (e, resolve) (linked_zone-filled link zone e)
  ]

module _ {W : Type 0} (deps : Dependencies W) where
  collect_timezone-Filled : (w : W) → Filled (collect_timezone deps w).0
  unfolding collect_timezone
  collect_timezone-Filled w =
      let file = deps.read_file default_timezone_path w in
      let link = deps.readlink default_localtime_path file.1 in
      elim (Bool-cases (is_empty (trimmed file.0))) [
        | inl e ↦ rw (e, collect_timezone) (resolve-Filled deps link.1 file.0 link.0)
        | inr e ↦ rw (e, collect_timezone) e
      ]

-- The warnings of the five sources, one behind another.
warned-sources :
    (source s1 s2 s3 s4 s5 : Bytes) (r1 r2 r3 r4 r5 : Result Bytes)
    → warned source (
        warnings_of s1 r1
        ++ (warnings_of s2 r2 ++ (warnings_of s3 r3 ++ (warnings_of s4 r4 ++ warnings_of s5 r5))))
      ≡ ((same s1 source && failed r1)
          || ((same s2 source && failed r2)
              || ((same s3 source && failed r3)
                  || ((same s4 source && failed r4) || (same s5 source && failed r5)))))
warned-sources source s1 s2 s3 s4 s5 r1 r2 r3 r4 r5 = simp (warned-append, warned-warnings_of)

or_false : (b : Bool) → (b || false) ≡ b
or_false true = refl
or_false false = refl

architecture_of-failed : (name : Bytes) → failed (architecture_of name) ≡ is_empty name
architecture_of-failed [] = refl
architecture_of-failed (c ∷ s) = refl

module _ {W : Type 0} (c : Collector W) (w : W) where
  -- Whatever the operating system answers, `Collect` gives a result: the name of the operating
  -- system, the kernel, the architecture and the time zone are each missing exactly when there is
  -- a warning of their source.
  pub collect_system-warned :
      (is_empty (collect_system c w).0.0.system.os ≡ warned (lit "os") (collect_system c w).0.1)
      × (is_empty (collect_system c w).0.0.system.kernel
          ≡ warned (lit "kernel") (collect_system c w).0.1)
      × (is_empty (collect_system c w).0.0.system.architecture
          ≡ warned (lit "architecture") (collect_system c w).0.1)
      × (is_empty (collect_system c w).0.0.system.timezone
          ≡ warned (lit "timezone") (collect_system c w).0.1)
  unfolding collect_system same lit
  collect_system-warned =
      let host = c.deps.hostname w in
      let os = collect_os c.deps host.1 in
      let kernel = collect_kernel c.deps os.1 in
      let timezone = collect_timezone c.deps kernel.1 in
      let name = normalize_architecture c.deps.architecture in
      let warnings = λ (source : Bytes).
        warned-sources source (lit "hostname") (lit "os") (lit "kernel") (lit "architecture")
          (lit "timezone") host.0 os.0 kernel.0 (architecture_of name) timezone.0 in
      (
        collect_os-Filled c.deps host.1 ∙ sym (warnings (lit "os") ∙ or_false (failed os.0)),
        collect_kernel-Filled c.deps os.1
            ∙ sym (warnings (lit "kernel") ∙ or_false (failed kernel.0)),
        sym (
            warnings (lit "architecture")
            ∙ or_false (failed (architecture_of name))
            ∙ architecture_of-failed name),
        collect_timezone-Filled c.deps kernel.1 ∙ sym (warnings (lit "timezone")),
      )
