-- ===== src/Secrets.antt =====
-- The rules, the arguments and `run` of tools/secret-scan/src/main.rs.
pub mod Scan
pub mod Tokens
pub mod Results
use pantheon_tools_catalog.Prelude.{
  ℕ, zero, suc, ◌+◌, ◌-◌, Bool, true, false, not, ◌&&◌, ◌||◌, Option, none, some, List, [], ◌∷◌,
  ◌++◌, map, length, any, flat_map, filter_map, foldl, is_empty, leb, ltb, ◌==◌, if◌then◌else◌,
  unwrap_or, and_then, ok_or, ensure, Result, ok, err, ◌>>=◌, ◌>>◌,
}
use pantheon_tools_catalog.Text.{Text, codes, lines, text_eq, is_digit}
use pantheon_tools_catalog.Text.Find.{contains}
use pantheon_tools_catalog.Glob.{glob_match}
use pantheon_tools_catalog.Serde.{Serde, str_arg, u64_arg, as_usize}
use pantheon_tools_catalog.Fs.{
  DirEntry, Metadata, Dir, World, Contents, unreadable, binary, text, is_file,
}
use pantheon_tools_catalog.Walk
use pantheon_tools_catalog.Walk.{Visitor}
use pantheon_tools_catalog.Patterns.{Match, Captures, group, Patterns}
use pantheon_tools_catalog.Masking.{Span, slice, masked_excerpt}
use pantheon_tools_catalog.Secrets.Scan.{
  private_key_block, entropy_rule, entropy_min_len, Rule, Ctx, Hit, is_token_byte, secret_of,
  rule_hit, rule_hits, token_runs, overlaps, token_step, scan_line, Found, full, push_hits,
  line_step, scan_lines, scan_text, scan_file, name_passes, visit, visitor, walk,
}

pub data Error : Type 0 where
  args_not_json max_matches_zero allowlist_invalid : Error
  bad_rule : Text → Error
  root_not_directory : Text → Error

-- an entry of `RULES`
pub record RuleText : Type 0 where
  pub id : Text
  pub pattern : Text
  pub secret_group : ℕ

abbrev pub rule_texts : List RuleText
rule_texts =
    record { id = codes "aws-access-key"; pattern = codes "AKIA[0-9A-Z]{16}"; secret_group = 0 }
    ∷ record {
      id = codes "aws-secret-key";
      pattern = codes "(?i)aws(.{0,20})?(secret|private)?.{0,20}?['\"]([0-9a-zA-Z/+]{40})['\"]";
      secret_group = 3;
    }
    ∷ record {
      id = codes "github-token";
      pattern = codes "gh[pousr]_[A-Za-z0-9]{36,}";
      secret_group = 0;
    }
    ∷ record {
      id = codes "slack-token";
      pattern = codes "xox[baprs]-[0-9A-Za-z-]{10,}";
      secret_group = 0;
    }
    ∷ record {
      id = private_key_block;
      pattern = codes "-----BEGIN (RSA |EC |OPENSSH |DSA )?PRIVATE KEY-----";
      secret_group = 0;
    }
    ∷ record {
      id = codes "generic-api-key";
      pattern =
          codes
            "(?i)(api[_-]?key|apikey|secret|token|password|passwd)\\s*[:=]\\s*['\"]?([A-Za-z0-9_/+=-]{16,})";
      secret_group = 2;
    }
    ∷ record {
      id = codes "jwt";
      pattern = codes "eyJ[A-Za-z0-9_-]{10,}\\.[A-Za-z0-9_-]{10,}\\.[A-Za-z0-9_-]{10,}";
      secret_group = 0;
    }
    ∷ []

pub record Output : Type 0 where
  pub root : Text
  pub count : ℕ
  pub truncated : Bool
  pub rules_checked : ℕ
  pub found : List Found

pub record Args : Type 0 where
  pub root : Text
  pub ctx : Ctx

module _ (j : Serde) where
  -- an item of the allowlist
  unfoldable pub allowed : j.Value → Option Text
  allowed item = and_then (j.as_str item) (λ s. if is_empty s then none else some s)

  unfoldable pub all_allowed : List j.Value → Result Error (List Text)
  unfolding allowed
  all_allowed [] = ok []
  all_allowed (item ∷ rest) = do
    s ← ok_or (allowed item) allowlist_invalid
    more ← all_allowed rest
    ok (s ∷ more)

  unfoldable pub read_allowlist : j.Value → Result Error (List Text)
  unfolding all_allowed
  read_allowlist a = elim (j.get a (codes "allowlist")) [
    | none ↦ ok []
    | some v ↦
        if j.is_null v
        then ok []
        else elim (j.as_array v) [ none ↦ err allowlist_invalid | some items ↦ all_allowed items ]
  ]

module _ (p : Patterns) where
  unfoldable pub compile_rules : List RuleText → Result Error (List Rule)
  compile_rules [] = ok []
  compile_rules (t ∷ ts) = do
    re ← ok_or (p.new t.pattern) (bad_rule t.id)
    rest ← compile_rules ts
    ok (
        record { id = t.id; captures_iter = p.captures_iter re; secret_group = t.secret_group }
        ∷ rest)

unfoldable pub read_args : Serde → Patterns → (Text → Bool) → Option Text → Result Error Args
unfolding read_allowlist compile_rules
read_args j p high_entropy raw = do
  a ← ok_or (j.from_str (unwrap_or raw (codes "{}"))) args_not_json
  let max_matches = as_usize (unwrap_or (u64_arg j a "max_matches") 200)
  ensure (not (max_matches == 0)) max_matches_zero
  allowlist ← read_allowlist j a
  rules ← compile_rules p rule_texts
  ok (record {
    root = unwrap_or (str_arg j a "root") (codes "/work");
    ctx = record {
      rules = rules;
      high_entropy = high_entropy;
      name_glob = str_arg j a "name_glob";
      max_matches = max_matches;
      max_file_bytes = unwrap_or (u64_arg j a "max_file_bytes") 1048576;
      max_depth = as_usize (unwrap_or (u64_arg j a "max_depth") 20);
      allowlist = allowlist;
    };
  })

unfoldable pub scan : Text → Ctx → Dir → Output
unfolding walk
scan root ctx d =
    let out = walk ctx d 0 [] in
    record {
      root = root;
      count = length out;
      truncated = leb ctx.max_matches (length out);
      rules_checked = length ctx.rules + 1;
      found = out;
    }

unfoldable pub run : Serde → Patterns → (Text → Bool) → World → Option Text → Result Error Output
unfolding read_args scan
run j p high_entropy w raw = do
  args ← read_args j p high_entropy raw
  ensure (w.path_is_dir args.root) (root_not_directory args.root)
  ok (scan args.root args.ctx (w.read_dir args.root))
