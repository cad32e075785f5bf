-- ===== src/Encodings/Tables.antt =====
-- The tables of lib/encodings.c, without HEIRLOOM_NROFF. The row of NULLs that ends each is the end
-- of the list.
use mandb.Base.{Option, none, some, List, [], ◌∷◌, Bytes, codes}

-- Language directories and the encodings of their pages. The order matters: the first prefix counts.
abbrev pub directory_table : List (Bytes × Bytes)
directory_table =
    (codes "C", codes "ISO-8859-1")
    ∷ (codes "POSIX", codes "ISO-8859-1")
    ∷ (codes "be", codes "CP1251")
    ∷ (codes "bg", codes "CP1251")
    ∷ (codes "cs", codes "ISO-8859-2")
    ∷ (codes "da", codes "ISO-8859-1")
    ∷ (codes "de", codes "ISO-8859-1")
    ∷ (codes "el", codes "ISO-8859-7")
    ∷ (codes "en", codes "ISO-8859-1")
    ∷ (codes "es", codes "ISO-8859-1")
    ∷ (codes "et", codes "ISO-8859-1")
    ∷ (codes "fi", codes "ISO-8859-1")
    ∷ (codes "fr", codes "ISO-8859-1")
    ∷ (codes "ga", codes "ISO-8859-1")
    ∷ (codes "gl", codes "ISO-8859-1")
    ∷ (codes "hr", codes "ISO-8859-2")
    ∷ (codes "hu", codes "ISO-8859-2")
    ∷ (codes "id", codes "ISO-8859-1")
    ∷ (codes "is", codes "ISO-8859-1")
    ∷ (codes "it", codes "ISO-8859-1")
    ∷ (codes "ja", codes "EUC-JP")
    ∷ (codes "ko", codes "EUC-KR")
    ∷ (codes "lt", codes "ISO-8859-13")
    ∷ (codes "lv", codes "ISO-8859-13")
    ∷ (codes "mk", codes "ISO-8859-5")
    ∷ (codes "nb", codes "ISO-8859-1")
    ∷ (codes "nl", codes "ISO-8859-1")
    ∷ (codes "nn", codes "ISO-8859-1")
    ∷ (codes "no", codes "ISO-8859-1")
    ∷ (codes "pl", codes "ISO-8859-2")
    ∷ (codes "pt", codes "ISO-8859-1")
    ∷ (codes "ro", codes "ISO-8859-2")
    ∷ (codes "ru", codes "KOI8-R")
    ∷ (codes "sk", codes "ISO-8859-2")
    ∷ (codes "sl", codes "ISO-8859-2")
    ∷ (codes "sr@latin", codes "ISO-8859-2")
    ∷ (codes "sr", codes "ISO-8859-5")
    ∷ (codes "sv", codes "ISO-8859-1")
    ∷ (codes "tr", codes "ISO-8859-9")
    ∷ (codes "uk", codes "KOI8-U")
    ∷ (codes "vi", codes "TCVN5712-1")
    ∷ (codes "zh_CN", codes "GBK")
    ∷ (codes "zh_SG", codes "GBK")
    ∷ (codes "zh_HK", codes "BIG5HKSCS")
    ∷ (codes "zh_TW", codes "BIG5")
    ∷ []

-- Upper-case aliases and canonical names.
abbrev pub charset_alias_table : List (Bytes × Bytes)
charset_alias_table =
    (codes "88591", codes "ISO-8859-1")
    ∷ (codes "88592", codes "ISO-8859-2")
    ∷ (codes "88593", codes "ISO-8859-3")
    ∷ (codes "88594", codes "ISO-8859-4")
    ∷ (codes "88595", codes "ISO-8859-5")
    ∷ (codes "88596", codes "ISO-8859-6")
    ∷ (codes "88597", codes "ISO-8859-7")
    ∷ (codes "88598", codes "ISO-8859-8")
    ∷ (codes "88599", codes "ISO-8859-9")
    ∷ (codes "885910", codes "ISO-8859-10")
    ∷ (codes "885911", codes "ISO-8859-11")
    ∷ (codes "885913", codes "ISO-8859-13")
    ∷ (codes "885914", codes "ISO-8859-14")
    ∷ (codes "885915", codes "ISO-8859-15")
    ∷ (codes "885916", codes "ISO-8859-16")
    ∷ (codes "ASCII", codes "ANSI_X3.4-1968")
    ∷ (codes "BIG-5", codes "BIG5")
    ∷ (codes "BIG5-HKSCS", codes "BIG5HKSCS")
    ∷ (codes "EUCCN", codes "EUC-CN")
    ∷ (codes "EUCJP", codes "EUC-JP")
    ∷ (codes "EUCKR", codes "EUC-KR")
    ∷ (codes "EUCTW", codes "EUC-TW")
    ∷ (codes "GB2312", codes "EUC-CN")
    ∷ (codes "ISO8859-1", codes "ISO-8859-1")
    ∷ (codes "ISO8859-2", codes "ISO-8859-2")
    ∷ (codes "ISO8859-3", codes "ISO-8859-3")
    ∷ (codes "ISO8859-4", codes "ISO-8859-4")
    ∷ (codes "ISO8859-5", codes "ISO-8859-5")
    ∷ (codes "ISO8859-6", codes "ISO-8859-6")
    ∷ (codes "ISO8859-7", codes "ISO-8859-7")
    ∷ (codes "ISO8859-8", codes "ISO-8859-8")
    ∷ (codes "ISO8859-9", codes "ISO-8859-9")
    ∷ (codes "ISO8859-10", codes "ISO-8859-10")
    ∷ (codes "ISO8859-11", codes "ISO-8859-11")
    ∷ (codes "ISO8859-13", codes "ISO-8859-13")
    ∷ (codes "ISO8859-14", codes "ISO-8859-14")
    ∷ (codes "ISO8859-15", codes "ISO-8859-15")
    ∷ (codes "ISO8859-16", codes "ISO-8859-16")
    ∷ (codes "KOI8R", codes "KOI8-R")
    ∷ (codes "KOI8U", codes "KOI8-U")
    ∷ (codes "UJIS", codes "EUC-JP")
    ∷ (codes "US-ASCII", codes "ANSI_X3.4-1968")
    ∷ (codes "UTF8", codes "UTF-8")
    ∷ []

-- Character sets and default devices.
abbrev pub charset_table : List (Bytes × Bytes)
charset_table =
    (codes "ANSI_X3.4-1968", codes "ascii")
    ∷ (codes "ISO-8859-1", codes "latin1")
    ∷ (codes "UTF-8", codes "utf8")
    ∷ []

pub record DeviceEntry : Type 0 where
  pub roff_device : Bytes
  pub roff_encoding : Option Bytes
  pub output_encoding : Option Bytes

abbrev pub device_table : List DeviceEntry
device_table =
    record {
      roff_device = codes "ascii";
      roff_encoding = some (codes "ANSI_X3.4-1968");
      output_encoding = some (codes "ANSI_X3.4-1968");
    }
    ∷ record {
      roff_device = codes "latin1";
      roff_encoding = some (codes "ISO-8859-1");
      output_encoding = some (codes "ISO-8859-1");
    }
    ∷ record {
      roff_device = codes "utf8";
      roff_encoding = some (codes "ISO-8859-1");
      output_encoding = some (codes "UTF-8");
    }
    ∷ record { roff_device = codes "X75"; roff_encoding = none; output_encoding = none }
    ∷ record { roff_device = codes "X75-12"; roff_encoding = none; output_encoding = none }
    ∷ record { roff_device = codes "X100"; roff_encoding = none; output_encoding = none }
    ∷ record { roff_device = codes "X100-12"; roff_encoding = none; output_encoding = none }
    ∷ record { roff_device = codes "dvi"; roff_encoding = none; output_encoding = none }
    ∷ record { roff_device = codes "html"; roff_encoding = none; output_encoding = none }
    ∷ record { roff_device = codes "lbp"; roff_encoding = none; output_encoding = none }
    ∷ record { roff_device = codes "lj4"; roff_encoding = none; output_encoding = none }
    ∷ record { roff_device = codes "ps"; roff_encoding = none; output_encoding = none }
    ∷ []

pub record LessCharsetEntry : Type 0 where
  pub charset_from_locale : Bytes
  pub less_charset : Bytes
  pub jless_charset : Option Bytes

abbrev pub less_charset_table : List LessCharsetEntry
less_charset_table =
    record {
      charset_from_locale = codes "ANSI_X3.4-1968";
      less_charset = codes "ascii";
      jless_charset = none;
    }
    ∷ record {
      charset_from_locale = codes "CP1251";
      less_charset = codes "windows";
      jless_charset = none;
    }
    ∷ record {
      charset_from_locale = codes "EUC-JP";
      less_charset = codes "iso8859";
      jless_charset = some (codes "japanese-ujis");
    }
    ∷ record {
      charset_from_locale = codes "ISO-8859-1";
      less_charset = codes "iso8859";
      jless_charset = none;
    }
    ∷ record {
      charset_from_locale = codes "KOI8-R";
      less_charset = codes "koi8-r";
      jless_charset = none;
    }
    ∷ record {
      charset_from_locale = codes "KOI8-U";
      less_charset = codes "koi8-r";
      jless_charset = none;
    }
    ∷ record {
      charset_from_locale = codes "UTF-8";
      less_charset = codes "utf-8";
      jless_charset = none;
    }
    ∷ []
