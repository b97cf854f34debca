-- ===== src/Reception/Formats.antt =====
-- DROS2/Data/DataFormat.cpp and DataFormat.h: the known formats, with the frame sizes of DrxFrame.h, Drx8Frame.h,
-- TbsFrame.h, TbtFrame.h and CorFrame.h for 256 stands. A name is a constructor, as the receiver only
-- looks up names that are in the table; the rate of frames, a double, is left out.
use data_recorder.Base.{ℕ, ◌*◌}
use data_recorder.Base.Int.{ℤ, pos, negsuc}

abbrev pub tbs4_frame_size : ℕ
tbs4_frame_size = 2076

abbrev pub tbs8_frame_size : ℕ
tbs8_frame_size = 4124

abbrev pub tbs12_frame_size : ℕ
tbs12_frame_size = 6172

abbrev pub tbt_frame_size : ℕ
tbt_frame_size = 8220

abbrev pub cor_frame_size : ℕ
cor_frame_size = 2336

abbrev pub drx_frame_size : ℕ
drx_frame_size = 4128

abbrev pub drx8_frame_size : ℕ
drx8_frame_size = 8224

pub data PacketType : Type 0 where
  pt_drx : PacketType
  pt_tbt : PacketType
  pt_tbs : PacketType
  pt_fsc : PacketType
  pt_spc : PacketType
  pt_cor : PacketType
  pt_drx8 : PacketType

pub record DataFormat : Type 0 where
  pub frame_size : ℕ
  pub data_rate : ℕ
  pub packet_type : PacketType
  pub dec_factor : ℤ
  pub bit_depth : ℕ

-- The filters, of which TBS has the last three.
pub data Filter : Type 0 where
  filt_1 : Filter
  filt_2 : Filter
  filt_3 : Filter
  filt_4 : Filter
  filt_5 : Filter
  filt_6 : Filter
  filt_7 : Filter

pub data FormatName : Type 0 where
  default_drx : FormatName
  default_tbt : FormatName
  default_tbs : FormatName
  default_cor : FormatName
  default_drx8 : FormatName
  tbs_filt_7 : FormatName
  tbs_filt_8 : FormatName
  tbs_filt_9 : FormatName
  drx_filt : Filter → FormatName
  drx8_filt : Filter → FormatName

unfoldable pub filter_factor : Filter → ℕ
filter_factor filt_1 = 784
filter_factor filt_2 = 392
filter_factor filt_3 = 196
filter_factor filt_4 = 98
filter_factor filt_5 = 40
filter_factor filt_6 = 20
filter_factor filt_7 = 10

unfoldable pub drx_rate : Filter → ℕ
drx_rate filt_1 = 1011360
drx_rate filt_2 = 2018592
drx_rate filt_3 = 4033056
drx_rate filt_4 = 8066112
drx_rate filt_5 = 19756608
drx_rate filt_6 = 39509088
drx_rate filt_7 = 79014048

unfoldable pub drx8_rate : Filter → ℕ
drx8_rate filt_1 = 2006656
drx8_rate filt_2 = 4013312
drx8_rate filt_3 = 8026624
drx8_rate filt_4 = 16061472
drx8_rate filt_5 = 39351840
drx8_rate filt_6 = 78703680
drx8_rate filt_7 = 157415584

-- A row of the table.
unfoldable pub data_format : ℕ → ℕ → PacketType → ℤ → ℕ → DataFormat
data_format frame_size data_rate packet_type dec_factor bit_depth = record {
  frame_size = frame_size;
  data_rate = data_rate;
  packet_type = packet_type;
  dec_factor = dec_factor;
  bit_depth = bit_depth;
}

unfoldable pub get_format_by_name : FormatName → DataFormat
get_format_by_name default_drx = data_format 4128 79014048 pt_drx (negsuc 0) 4
get_format_by_name default_tbt = data_format tbt_frame_size 117440512 pt_tbt (negsuc 0) 4
get_format_by_name default_tbs =
    data_format tbs12_frame_size (tbs12_frame_size * 23926) pt_tbs (negsuc 0) 4
get_format_by_name default_cor = data_format 2336 117440512 pt_fsc (negsuc 0) 4
get_format_by_name default_drx8 = data_format 8224 157415584 pt_drx8 (negsuc 0) 8
get_format_by_name tbs_filt_7 =
    data_format tbs4_frame_size (tbs4_frame_size * 23926) pt_tbs (negsuc 0) 4
get_format_by_name tbs_filt_8 =
    data_format tbs8_frame_size (tbs8_frame_size * 23926) pt_tbs (negsuc 0) 4
get_format_by_name tbs_filt_9 =
    data_format tbs12_frame_size (tbs12_frame_size * 23926) pt_tbs (negsuc 0) 4
get_format_by_name (drx_filt f) = data_format 4128 (drx_rate f) pt_drx (pos (filter_factor f)) 4
get_format_by_name (drx8_filt f) = data_format 8224 (drx8_rate f) pt_drx8 (pos (filter_factor f)) 8
