-- ===== src/Coverage/Filter.antt =====
-- config.rs and lib.rs, parse_filter_expr: the filters of a configuration as expressions on columns.
use multi_fuzz_benchmarks.Prelude.{ℕ, Bool, true, false, Text}

mutual
  pub data FilterExpr : Type 0 where
    col str : Text → FilterExpr
    u32 u64 : ℕ → FilterExpr
    equal unequal : FilterExpr → FilterExpr → FilterExpr
    all_of any_of : Filters → FilterExpr
    negation : FilterExpr → FilterExpr
    always : FilterExpr

  -- A list of filters.
  pub data Filters : Type 0 where
    fnil : Filters
    fcons : FilterExpr → Filters → Filters

-- What the code takes from polars' expressions.
pub record Exprs (Expr : Type 0) : Type 0 where
  pub column : Text → Expr
  pub lit_text : Text → Expr
  pub lit_u32 : ℕ → Expr
  pub lit_u64 : ℕ → Expr
  pub lit_bool : Bool → Expr
  pub eq_op : Expr → Expr → Expr
  pub neq_op : Expr → Expr → Expr
  pub and_op : Expr → Expr → Expr
  pub or_op : Expr → Expr → Expr
  pub not_op : Expr → Expr

module _ {Expr : Type 0} (polars : Exprs Expr) where
  unfoldable mutual
    pub parse_filter_expr : FilterExpr → Expr
    parse_filter_expr (col name) = polars.column name
    parse_filter_expr (str e) = polars.lit_text e
    parse_filter_expr (u32 x) = polars.lit_u32 x
    parse_filter_expr (u64 x) = polars.lit_u64 x
    parse_filter_expr (equal a b) = polars.eq_op (parse_filter_expr a) (parse_filter_expr b)
    parse_filter_expr (unequal a b) = polars.neq_op (parse_filter_expr a) (parse_filter_expr b)
    parse_filter_expr (all_of exprs) = fold_and exprs (polars.lit_bool true)
    parse_filter_expr (any_of exprs) = fold_or exprs (polars.lit_bool false)
    parse_filter_expr (negation e) = polars.not_op (parse_filter_expr e)
    parse_filter_expr always = polars.lit_bool true

    -- The loops over the parts of a conjunction and of a disjunction.
    pub fold_and : Filters → Expr → Expr
    fold_and fnil expr = expr
    fold_and (fcons a exprs) expr = fold_and exprs (polars.and_op expr (parse_filter_expr a))

    pub fold_or : Filters → Expr → Expr
    fold_or fnil expr = expr
    fold_or (fcons a exprs) expr = fold_or exprs (polars.or_op expr (parse_filter_expr a))
