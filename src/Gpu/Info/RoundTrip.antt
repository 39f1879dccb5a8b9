-- ===== src/Gpu/Info/RoundTrip.antt =====
-- The script that prints the GPUs below /proc, and the reading of its output.
use Prim.Native.Char.{Char, char}
use composable_resource_oper.Common.{
  String, ◌<>◌, true, false, List, [], ◌∷◌, map, ◌≡◌, ◌≢◌, refl, arith, All, lacks, split,
  trim_space, string_eq, string_dec, ℕ_discrete, nat_eq, split_whole, lacks-append, join-ne_empty,
  split_join, ap, ◌∙◌,
}
use composable_resource_oper.Api.{Result}
use composable_resource_oper.Gpu.{Output, is_failed}
use composable_resource_oper.Gpu.Drain.{fields}
use composable_resource_oper.Gpu.Info.{
  Info, values_of, select_fields, read_line, parse_proc, read_proc,
}

-- A line of the output: device minor, UUID and bus id
pub record Row : Type 0 where
  pub minor : String
  pub uuid : String
  pub bus : String

-- Without separators, and without spaces around
abbrev pub IsPlain : String → Type 0
IsPlain s = (lacks 44 s ≡ true) × (lacks 10 s ≡ true) × (trim_space s ≡ s)

abbrev pub IsPlainRow : Row → Type 0
IsPlainRow r = IsPlain r.minor × IsPlain r.uuid × IsPlain r.bus

-- `printf '%s,%s,%s\n'`, where the last line break is trimmed
abbrev pub print_row : Row → String
print_row r = r.minor <> ("," <> (r.uuid <> ("," <> r.bus)))

abbrev pub print_rows : Row → List Row → String
print_rows r [] = print_row r
print_rows r (s ∷ rows) = print_row r <> ("\n" <> print_rows s rows)

abbrev pub info_of : Row → Info
info_of r = ("device_minor", r.minor) ∷ ("gpu_uuid", r.uuid) ∷ ("pci.bus_id", r.bus) ∷ []

abbrev pub names : List String
names = "device_minor" ∷ "gpu_uuid" ∷ "pci.bus_id" ∷ []

abbrev comma : Char
comma = char 44 tt

abbrev line_break : Char
line_break = char 10 tt

split-print_row : (r : Row) → IsPlainRow r → split 44 (print_row r) ≡ r.minor ∷ r.uuid ∷ r.bus ∷ []
split-print_row r ((a, _, _), (b, _, _), (c, _, _)) =
    split_join 44 r.minor comma (r.uuid <> ("," <> r.bus)) a refl
    ∙ ap (λ rest. r.minor ∷ rest) (split_join 44 r.uuid comma r.bus b refl)
    ∙ ap (λ rest. r.minor ∷ r.uuid ∷ rest) (split_whole 44 r.bus c)

comma-lacks : lacks 10 "," ≡ true
unfolding ℕ_discrete
comma-lacks = refl

print_row-lacks : (r : Row) → IsPlainRow r → lacks 10 (print_row r) ≡ true
print_row-lacks r ((_, a, _), (_, b, _), (_, c, _)) = lacks-append 10 r.minor _ a (
    lacks-append 10 "," _ comma-lacks
      (lacks-append 10 r.uuid _ b (lacks-append 10 "," _ comma-lacks c)))

select_fields-values_of :
    (minor uuid bus : String)
    → select_fields names (values_of minor uuid bus) []
      ≡ Result.ok (
          ("device_minor", trim_space minor)
          ∷ ("gpu_uuid", trim_space uuid)
          ∷ ("pci.bus_id", trim_space bus)
          ∷ [])
unfolding select_fields trim_space string_dec ℕ_discrete
select_fields-values_of minor uuid bus = refl

abbrev trimmed : Row → Info
trimmed r =
    ("device_minor", trim_space r.minor)
    ∷ ("gpu_uuid", trim_space r.uuid)
    ∷ ("pci.bus_id", trim_space r.bus)
    ∷ []

trimmed_plain : (r : Row) → IsPlainRow r → trimmed r ≡ info_of r
trimmed_plain r ((_, _, a), (_, _, b), (_, _, c)) = rw (a, b, c) refl

read_line-print_row :
    (r : Row)
    → IsPlainRow r
    → read_line names (print_row r) (split 44 (print_row r)) ≡ Result.ok (info_of r)
read_line-print_row r p =
    rw (split-print_row r p)
      (select_fields-values_of r.minor r.uuid r.bus ∙ ap Result.ok (trimmed_plain r p))

parse_proc_one :
    (r : Row) (lines : List String) (infos : List Info)
    → IsPlainRow r
    → parse_proc names lines ≡ Result.ok infos
    → parse_proc names (print_row r ∷ lines) ≡ Result.ok (info_of r ∷ infos)
unfolding parse_proc
parse_proc_one r lines infos p h =
    ground (arith, read_line-print_row r p, join-ne_empty r.minor comma (r.uuid <> ("," <> r.bus)))

parse_proc-print_rows :
    (r : Row) (rows : List Row)
    → All IsPlainRow (r ∷ rows)
    → parse_proc names (split 10 (print_rows r rows)) ≡ Result.ok (map info_of (r ∷ rows))
unfolding parse_proc
parse_proc-print_rows r [] (p, _) =
    rw (split_whole 10 (print_row r) (print_row-lacks r p)) (parse_proc_one r [] [] p refl)
parse_proc-print_rows r (s ∷ rows) (p, ps) =
    rw (split_join 10 (print_row r) line_break (print_rows s rows) (print_row-lacks r p) refl) (
      parse_proc_one r (split 10 (print_rows s rows)) (map info_of (s ∷ rows)) p
        (parse_proc-print_rows s rows ps))

print_rows-ne_empty : (r : Row) (rows : List Row) → print_rows r rows ≢ ""
print_rows-ne_empty r [] = join-ne_empty r.minor comma (r.uuid <> ("," <> r.bus))
print_rows-ne_empty r (s ∷ rows) = join-ne_empty (print_row r) line_break (print_rows s rows)

fields-names : split 44 fields ≡ names
unfolding ℕ_discrete
fields-names = refl

-- Reading the output of the script gives back the rows that were printed, when their three texts hold no
-- comma and no line break and no space around, and the command did not fail.
pub read_proc-print_rows :
    (o : Output) (r : Row) (rows : List Row)
    → All IsPlainRow (r ∷ rows)
    → is_failed o ≡ false
    → trim_space o.stdout ≡ print_rows r rows
    → read_proc (split 44 fields) o ≡ Result.ok (map info_of (r ∷ rows))
unfolding read_proc
read_proc-print_rows o r rows p f e =
    rw (fields-names, f, e)
      (ground (arith, print_rows-ne_empty r rows, parse_proc-print_rows r rows p))
