-- ===== src/Domain/Hypothesis.antt =====
-- domain/models.py: the classes of hypotheses and what their evaluation says.
use sep.Base.{Bool, true, false}

pub data HypothesisClass : Type 0 where
  benign anomalous context : HypothesisClass

pub data HypothesisStatus : Type 0 where
  proposed supported contradicted insufficient : HypothesisStatus

abbrev pub is_benign : HypothesisClass → Bool
is_benign HypothesisClass.benign = true
is_benign _ = false

abbrev pub is_anomalous : HypothesisClass → Bool
is_anomalous HypothesisClass.anomalous = true
is_anomalous _ = false

abbrev pub is_context : HypothesisClass → Bool
is_context HypothesisClass.context = true
is_context _ = false

abbrev pub is_supported : HypothesisStatus → Bool
is_supported HypothesisStatus.supported = true
is_supported _ = false

abbrev pub is_contradicted : HypothesisStatus → Bool
is_contradicted HypothesisStatus.contradicted = true
is_contradicted _ = false

abbrev pub is_insufficient : HypothesisStatus → Bool
is_insufficient HypothesisStatus.insufficient = true
is_insufficient _ = false
