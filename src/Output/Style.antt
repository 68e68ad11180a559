-- ===== src/Output/Style.antt =====
-- The configuration and the styles of crates/loi-output/src/pretty.rs. The crate owo_colors is a
-- parameter.
use loi.Prelude.{not, Option, some, Bool, true, if◌then◌else◌}
use loi.Prelude.Text.{Text}
use loi.Syscalls.Decoder.{Category, file, file_meta, memory_map, process}

-- What the source takes from `owo_colors`: styles and their builders, and texts in a style.
pub record Colors : Type 1 where
  pub Style : Type 0
  pub style_new : Style
  pub style_dimmed : Style → Style
  pub style_bold : Style → Style
  pub style_cyan : Style → Style
  pub style_blue : Style → Style
  pub style_magenta : Style → Style
  pub style_yellow : Style → Style
  pub styled : Style → Text → Text
  pub dimmed : Text → Text
  pub bold : Text → Text
  pub red : Text → Text

pub record PrettyConfig : Type 0 where
  pub color : Bool
  pub aligned : Bool
  pub category_colors : Bool
  pub dim_lookups : Bool
  pub group_lookups : Bool

unfoldable pub config_new : Bool → PrettyConfig
config_new on = record {
  color = on;
  aligned = true;
  category_colors = true;
  dim_lookups = true;
  group_lookups = true;
}

unfoldable pub with_aligned : Bool → PrettyConfig → PrettyConfig
with_aligned on cfg = record cfg { aligned = on }

unfoldable pub with_category_colors : Bool → PrettyConfig → PrettyConfig
with_category_colors on cfg = record cfg { category_colors = on }

unfoldable pub with_dim_lookups : Bool → PrettyConfig → PrettyConfig
with_dim_lookups on cfg = record cfg { dim_lookups = on }

unfoldable pub with_group_lookups : Bool → PrettyConfig → PrettyConfig
with_group_lookups on cfg = record cfg { group_lookups = on }

module _ (c : Colors) where
  abbrev pub category_style : Option Category → c.Style
  category_style (some file) = c.style_cyan (c.style_bold c.style_new)
  category_style (some file_meta) = c.style_blue (c.style_bold c.style_new)
  category_style (some memory_map) = c.style_magenta (c.style_bold c.style_new)
  category_style (some process) = c.style_yellow (c.style_bold c.style_new)
  category_style _ = c.style_bold c.style_new

  unfoldable pub name_style : PrettyConfig → Option Category → Bool → c.Style
  name_style cfg category dim_line =
      if dim_line
      then c.style_dimmed c.style_new
      else if not cfg.color
      then c.style_new
      else if not cfg.category_colors
      then c.style_cyan (c.style_bold c.style_new)
      else category_style category
