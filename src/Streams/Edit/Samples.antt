-- ===== src/Streams/Edit/Samples.antt =====
-- A command without flags.
use natscli.Prelude.{refl, str_eq}
use natscli.Streams.Samples.{plain}
use natscli.Streams.Edit.Unset.{NoFlags}

pub plain-NoFlags : NoFlags plain
unfolding str_eq
plain-NoFlags = record {
  from_flags = refl;
  policies_unset = refl;
  limits_unset = refl;
  switches_unset = refl;
  subjects_unset = refl;
  compression_unset = refl;
  cluster_unset = refl;
  tags_unset = refl;
  sources_unset = refl;
  mirror_unset = (refl, refl);
  description_unset = refl;
  metadata_unset = refl;
  republish_unset = (refl, refl, refl, refl);
  transform_unset = (refl, refl, refl);
  marker_unset = refl;
}
